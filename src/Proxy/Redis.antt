-- ===== src/Proxy/Redis.antt =====
-- What deploy/proxyAPI/proxy.py relies on of Redis: keys that may expire, and the documented effect
-- of GET, SET, SETEX, DEL, INCR and EXPIRE. Times are whole seconds.
pub mod Memory
use sipmedia_gw.Prelude.{
  ℕ, ◌+◌, String, ◌≡◌, Bool, true, false, Option, none, some, List, ◌==◌, leb, if◌then◌else◌,
}
use sipmedia_gw.Proxy.Entry.{Raw, count}

-- "gateway:<id>", "pairing:<code>" and "codetries:<address>".
pub data Key : Type 0 where
  gateway pairing codetries : String → Key

abbrev pub key_eq : Key → Key → Bool
key_eq (gateway a) (gateway b) = a == b
key_eq (pairing a) (pairing b) = a == b
key_eq (codetries a) (codetries b) = a == b
key_eq _ _ = false

-- A value and the second from which it is gone, if any.
pub record Cell : Type 0 where
  pub value : Raw
  pub gone_at : Option ℕ

abbrev pub is_over : ℕ → Option ℕ → Bool
is_over now none = false
is_over now (some t) = leb t now

abbrev pub live : ℕ → Option Cell → Option Cell
live now none = none
live now (some c) = if is_over now c.gone_at then none else some c

abbrev pub value_of : Option Cell → Option Raw
value_of none = none
value_of (some c) = some c.value

abbrev pub deadline_of : Option Cell → Option ℕ
deadline_of none = none
deadline_of (some c) = c.gone_at

-- The number that INCR adds to.
abbrev pub counter : Option Raw → Option ℕ
counter none = some 0
counter (some (count n)) = some n
counter (some _) = none

abbrev pub with_deadline : ℕ → Option Cell → Option Cell
with_deadline t none = none
with_deadline t (some c) = some (record c { gone_at = some t })

-- `cell` is what a key holds, expired or not. An INCR keeps the time that the key has left.
pub record Redis : Type 1 where
  pub Store : Type 0
  pub cell : Store → Key → Option Cell
  pub put : Key → Raw → Store → Store
  pub setex : ℕ → Key → ℕ → Raw → Store → Store
  pub delete : Key → Store → Store
  pub incr : ℕ → Key → Store → Store
  pub expire : ℕ → Key → ℕ → Store → Store
  pub cell-put :
      (k j : Key) (v : Raw) (s : Store)
      → cell (put k v s) j
        ≡ (if key_eq k j then some (record { value = v; gone_at = none }) else cell s j)
  pub cell-setex :
      (now ttl : ℕ) (k j : Key) (v : Raw) (s : Store)
      → cell (setex now k ttl v s) j
        ≡ (if key_eq k j then some (record { value = v; gone_at = some (now + ttl) }) else cell s j)
  pub cell-delete :
      (k j : Key) (s : Store) → cell (delete k s) j ≡ (if key_eq k j then none else cell s j)
  pub cell-incr :
      (now n : ℕ) (k j : Key) (s : Store)
      → counter (value_of (live now (cell s k))) ≡ some n
      → cell (incr now k s) j ≡ (
          if key_eq k j
          then some (record { value = count (n + 1); gone_at = deadline_of (live now (cell s k)) })
          else cell s j)
  pub cell-expire :
      (now ttl : ℕ) (k j : Key) (s : Store)
      → cell (expire now k ttl s) j
        ≡ (if key_eq k j then with_deadline (now + ttl) (live now (cell s k)) else cell s j)
