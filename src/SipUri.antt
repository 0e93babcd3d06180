-- ===== src/SipUri.antt =====
-- src/logParse.py: SIP addresses, and HTTPLauncher.py: the name that a peer displays.
-- deploy/proxyAPI/proxy.py has the same normalisation.
pub mod Laws
mod Tests
use sipmedia_gw.Prelude.{ℕ, String, Bool, true, false, Option, none, some, if◌then◌else◌}
use sipmedia_gw.Text.{append, strip, has_prefix, strip_prefix, has_char, before, after, is_empty}

-- normalizeSipUri
unfoldable pub normalize_sip_uri : String → String
unfolding append strip has_prefix has_char
normalize_sip_uri uri =
    let clean = strip uri in
    if is_empty clean
    then ""
    else if has_prefix "sip:" clean
    then clean
    else if has_char 64 clean
    then append "sip:" clean
    else clean

abbrev pub without_prefix : String → Option String → String
without_prefix s none = s
without_prefix s (some rest) = rest

-- stripSipPrefix
unfoldable pub strip_sip_prefix : String → String
unfolding strip strip_prefix
strip_sip_prefix uri = let clean = strip uri in without_prefix clean (strip_prefix "sip:" clean)

-- splitUri
unfoldable pub split_uri : String → String × String
unfolding strip_sip_prefix has_char before after
split_uri uri =
    let clean = strip_sip_prefix uri in
    if has_char 64 clean then (before 64 clean, after 64 clean) else ("", "")
