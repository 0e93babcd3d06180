-- ===== src/Proxy/Redis/Memory.antt =====
-- A Redis in memory, which shows that the laws can be met, and runs in tests.
use sipmedia_gw.Prelude.{ℕ, ◌+◌, ◌≡◌, refl, ap, Option, none, some, if◌then◌else◌}
use sipmedia_gw.Proxy.Entry.{count}
use sipmedia_gw.Proxy.Redis.{
  Key, key_eq, Cell, live, value_of, deadline_of, counter, with_deadline, Redis,
}

abbrev pub update : Key → Option Cell → (Key → Option Cell) → Key → Option Cell
update k c s j = if key_eq k j then c else s j

abbrev pub counted : Option ℕ → ℕ
counted none = 0
counted (some n) = n

abbrev pub incremented : ℕ → Option Cell → Option Cell
incremented now c = some (record {
  value = count (counted (counter (value_of (live now c))) + 1);
  gone_at = deadline_of (live now c);
})

pub cell-incremented :
    (now n : ℕ) (k j : Key) (s : Key → Option Cell)
    → counter (value_of (live now (s k))) ≡ some n
    → update k (incremented now (s k)) s j ≡ (
        if key_eq k j
        then some (record { value = count (n + 1); gone_at = deadline_of (live now (s k)) })
        else s j)
cell-incremented now n k j s h =
    ap
      (λ m.
        if key_eq k j
        then some (record { value = count (counted m + 1); gone_at = deadline_of (live now (s k)) })
        else s j)
      h

abbrev pub memory : Redis
memory = record {
  Store = Key → Option Cell;
  cell = λ s k. s k;
  put = λ k v. update k (some (record { value = v; gone_at = none }));
  setex = λ now k ttl v. update k (some (record { value = v; gone_at = some (now + ttl) }));
  delete = λ k. update k none;
  incr = λ now k s. update k (incremented now (s k)) s;
  expire = λ now k ttl s. update k (with_deadline (now + ttl) (live now (s k))) s;
  cell-put = λ k j v s. refl;
  cell-setex = λ now ttl k j v s. refl;
  cell-delete = λ k j s. refl;
  cell-incr = cell-incremented;
  cell-expire = λ now ttl k j s. refl;
}

abbrev pub empty : Key → Option Cell
empty k = none
