-- ===== src/Proxy/Entry/Dump.antt =====
-- deploy/proxyAPI/proxy.py: an entry that is written and read back has the fields that it had.
use sipmedia_gw.Prelude.{
  String, ◌≡◌, refl, sym, none, some, List, [], ◌∷◌, ◌++◌, eq_iff, arith, Dict, lookup,
  Option-cases, inl, inr,
}
use sipmedia_gw.Proxy.Entry.{Scalar, field, gw_load, gw_dump, gw_fields, ordered, others, has_key}

lookup-append :
    (k : String) (d e : Dict Scalar)
    → lookup k (d ++ e) ≡ elim (lookup k d) [ none ↦ lookup k e | some v ↦ some v ]
unfolding lookup
lookup-append k [] e = refl
lookup-append k ((j, v) ∷ d) e = ground (arith, lookup-append k d e)

lookup-others :
    (k : String) (done gw : Dict Scalar)
    → lookup k done ≡ none
    → lookup k (others done gw) ≡ lookup k gw
unfolding lookup others has_key
lookup-others k done [] h = refl
lookup-others k done ((j, v) ∷ gw) h = ground (arith, eq_iff j k, lookup-others k done gw h)

lookup-ordered :
    (k : String) (ks : List String) (gw : Dict Scalar) (v : Scalar)
    → lookup k (ordered ks gw) ≡ some v
    → lookup k gw ≡ some v
unfolding lookup ordered
lookup-ordered k [] gw v h = cc
lookup-ordered k (j ∷ ks) gw v h = ground (arith, eq_iff j k, lookup-ordered k ks gw v)

lookup_first :
    (k : String) (first gw : Dict Scalar)
    → ((v : Scalar) → lookup k first ≡ some v → lookup k gw ≡ some v)
    → lookup k (first ++ others first gw) ≡ lookup k gw
lookup_first k first gw agrees = elim (Option-cases (lookup k first)) [
  | inl e ↦ rw (lookup-append k first (others first gw)) (rw e (lookup-others k first gw e))
  | inr (v, e) ↦ rw (lookup-append k first (others first gw)) (rw e (sym (agrees v e)))
]

-- An entry that is written and read back has, under every key, the value that it had.
pub lookup-gw_load-gw_dump :
    (k : String) (gw : Dict Scalar) → lookup k (gw_load (some (gw_dump gw))) ≡ lookup k gw
unfolding gw_load gw_dump
lookup-gw_load-gw_dump k gw =
    lookup_first k (ordered gw_fields gw) gw (λ v. lookup-ordered k gw_fields gw v)

-- The same of the value that the code reads under a key.
pub field-gw_load-gw_dump :
    (k : String) (gw : Dict Scalar) → field k (gw_load (some (gw_dump gw))) ≡ field k gw
unfolding field
field-gw_load-gw_dump k gw = rw (lookup-gw_load-gw_dump k gw, field)
