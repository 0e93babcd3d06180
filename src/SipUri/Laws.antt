-- ===== src/SipUri/Laws.antt =====
-- src/logParse.py: the normal form of an address, and its two parts.
use Prim.Native.Char.{Char}
use Prim.Native.String.{[], ◌∷◌}
use sipmedia_gw.Prelude.{
  String, ◌≡◌, refl, sym, ap, ◌∙◌, true, false, Bool-cases, inl, inr, if◌then◌else◌, false≢true,
}
use sipmedia_gw.Text.{
  append, strip, lstrip, rstrip, is_space, has_prefix, strip_prefix, has_char, is_empty, strip_idem,
  rstrip_idem, has_prefix-append, append-after, has_char-before,
}
use sipmedia_gw.SipUri.{normalize_sip_uri, strip_sip_prefix, split_uri}

rstrip-strip : (s : String) → rstrip (strip s) ≡ strip s
unfolding strip
rstrip-strip s = rstrip_idem (lstrip s)

-- A prefix that is no space keeps a trimmed text trimmed.
strip-append_sip : (s : String) → rstrip s ≡ s → strip (append "sip:" s) ≡ append "sip:" s
unfolding strip append rstrip lstrip is_space
strip-append_sip s e = rw e

abbrev at_sign : Char
at_sign = "@"

abbrev normal : String → String
normal clean =
    if is_empty clean
    then ""
    else if has_prefix "sip:" clean
    then clean
    else if has_char 64 clean
    then append "sip:" clean
    else clean

normal_prefixed : (s : String) → has_prefix "sip:" s ≡ true → normal s ≡ s
unfolding has_prefix strip_prefix
normal_prefixed [] h = absurd (false≢true h)
normal_prefixed (c ∷ s) h = rw h

normal_plain : (s : String) → has_prefix "sip:" s ≡ false → has_char 64 s ≡ false → normal s ≡ s
normal_plain [] h k = refl
normal_plain (c ∷ s) h k = rw (h, k)

normal_user :
    (s : String) → has_prefix "sip:" s ≡ false → has_char 64 s ≡ true → normal s ≡ append "sip:" s
unfolding has_char
normal_user [] h k = absurd (false≢true k)
normal_user (c ∷ s) h k = rw (h, k)

normal-normal : (s : String) → strip s ≡ s → rstrip s ≡ s → normal (strip (normal s)) ≡ normal s
normal-normal s e f = elim (Bool-cases (has_prefix "sip:" s)) [
  | inl p ↦ rw (normal_prefixed s p, e) (normal_prefixed s p)
  | inr p ↦ elim (Bool-cases (has_char 64 s)) [
    | inl k ↦
        rw (normal_user s p k, strip-append_sip s f)
          (normal_prefixed (append "sip:" s) (has_prefix-append "sip:" s))
    | inr k ↦ rw (normal_plain s p k, e) (normal_plain s p k)
  ]
]

-- The normal form of an address is its own normal form.
pub normalize_sip_uri_idem :
    (uri : String) → normalize_sip_uri (normalize_sip_uri uri) ≡ normalize_sip_uri uri
unfolding normalize_sip_uri
normalize_sip_uri_idem uri = normal-normal (strip uri) (strip_idem uri) (rstrip-strip uri)

trimmed-rstrip : (u : String) → strip u ≡ u → rstrip u ≡ u
trimmed-rstrip u e = ap rstrip (sym e) ∙ rstrip-strip u ∙ e

-- An endpoint that reports itself without the scheme and one that reports itself with it have the
-- same normal form.
pub normalize_sip_uri-append :
    (u : String)
    → strip u ≡ u
    → has_prefix "sip:" u ≡ false
    → has_char 64 u ≡ true
    → normalize_sip_uri (append "sip:" u) ≡ normalize_sip_uri u
unfolding normalize_sip_uri
normalize_sip_uri-append u e p k =
    ap normal (strip-append_sip u (trimmed-rstrip u e))
    ∙ normal_prefixed (append "sip:" u) (has_prefix-append "sip:" u)
    ∙ sym (ap normal e ∙ normal_user u p k)

-- The two parts of an address with "@" make it up again, without the scheme, and the first has no
-- "@"; an address with none has no parts.
pub split_uri_parts :
    (uri : String)
    → (has_char 64 (strip_sip_prefix uri) ≡ true
        → (append (split_uri uri).0 (append "@" (split_uri uri).1) ≡ strip_sip_prefix uri)
          × (has_char 64 (split_uri uri).0 ≡ false))
      × (has_char 64 (strip_sip_prefix uri) ≡ false → split_uri uri ≡ ("", ""))
unfolding split_uri append
split_uri_parts uri = (
  λ k.
      rw k
        (append-after at_sign (strip_sip_prefix uri) k, has_char-before 64 (strip_sip_prefix uri)),
  λ k. rw k,
)
