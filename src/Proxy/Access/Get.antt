-- ===== src/Proxy/Access/Get.antt =====
-- deploy/proxyAPI/proxy.py: what GET gives after a write.
use sipmedia_gw.Prelude.{
  ℕ, ◌≡◌, refl, ◌∙◌, ap, Bool, true, false, Option, none, some, if◌then◌else◌, eq_refl,
}
use sipmedia_gw.Proxy.Entry.{Raw}
use sipmedia_gw.Proxy.Redis.{Redis, Key, gateway, pairing, codetries, key_eq, Cell, live, value_of}
use sipmedia_gw.Proxy.Access.{get}

pub key_eq_refl : (k : Key) → key_eq k k ≡ true
key_eq_refl (gateway a) = eq_refl a
key_eq_refl (pairing a) = eq_refl a
key_eq_refl (codetries a) = eq_refl a

value_if :
    (b : Bool) (now : ℕ) (c d : Option Cell)
    → value_of (live now (if b then c else d))
      ≡ (if b then value_of (live now c) else value_of (live now d))
value_if true now c d = refl
value_if false now c d = refl

module _ (r : Redis) where
  open r use {Store, cell, put, delete, cell-put, cell-delete}

  pub get-put :
      (k j : Key) (v : Raw) (now : ℕ) (s : Store)
      → get r now (put k v s) j ≡ (if key_eq k j then some v else get r now s j)
  unfolding get
  get-put k j v now s =
      ap (λ c. value_of (live now c)) (cell-put k j v s) ∙ value_if (key_eq k j) now _ _

  pub get-put_self : (k : Key) (v : Raw) (now : ℕ) (s : Store) → get r now (put k v s) k ≡ some v
  get-put_self k v now s = get-put k k v now s ∙ rw (key_eq_refl k)

  pub get-delete :
      (k j : Key) (now : ℕ) (s : Store)
      → get r now (delete k s) j ≡ (if key_eq k j then none else get r now s j)
  unfolding get
  get-delete k j now s =
      ap (λ c. value_of (live now c)) (cell-delete k j s) ∙ value_if (key_eq k j) now _ _

  -- A key keeps its value under GET where its cell is kept.
  pub get-cell :
      (now : ℕ) (s s' : Store) (j : Key) → cell s' j ≡ cell s j → get r now s' j ≡ get r now s j
  unfolding get
  get-cell now s s' j e = ap (λ c. value_of (live now c)) e
