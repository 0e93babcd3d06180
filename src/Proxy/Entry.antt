-- ===== src/Proxy/Entry.antt =====
-- deploy/proxyAPI/proxy.py: a gateway's entry, its fields by name, as read from and written to Redis.
pub mod Dump
pub mod State
use sipmedia_gw.Prelude.{
  ℕ, String, ◌≡◌, refl, Bool, true, false, not, ◌&&◌, ◌||◌, Option, none, some, List, [], ◌∷◌, ◌++◌,
  ◌==◌, eqb, any, Dict, lookup, insert, if◌then◌else◌,
}
use sipmedia_gw.Text.{is_empty, show}

-- The scalar values of JSON that an entry, a request and a gateway's answer carry.
pub data Scalar : Type 0 where
  null : Scalar
  str : String → Scalar
  num : ℕ → Scalar
  flag : Bool → Scalar

-- A value as Redis holds it: the JSON text of an object, the digits of a counter, any other text.
pub data Raw : Type 0 where
  object : Dict Scalar → Raw
  count : ℕ → Raw
  plain : String → Raw

-- Python's truth of a value, of `d.get(k)`, and of what Redis returns.
unfoldable pub truthy : Scalar → Bool
truthy null = false
truthy (str s) = not (is_empty s)
truthy (num n) = not (eqb n 0)
truthy (flag b) = b

unfoldable pub is_set : Option Scalar → Bool
unfolding truthy
is_set none = false
is_set (some v) = truthy v

unfoldable pub is_held : Option Raw → Bool
is_held none = false
is_held (some (plain s)) = not (is_empty s)
is_held (some _) = true

-- f"{v}"
unfoldable pub render : Scalar → String
render null = "None"
render (str s) = s
render (num n) = show n
render (flag true) = "True"
render (flag false) = "False"

-- d.get(k), where the code makes no difference between an absent key and a null.
unfoldable pub field : String → Dict Scalar → Scalar
unfolding lookup
field k d = elim (lookup k d) [ none ↦ null | some v ↦ v ]

unfoldable pub gw_fields : List String
gw_fields =
    "gw_ip" ∷ "gw_state" ∷ "gw_type" ∷ "room" ∷ "physical_room" ∷ "start_time" ∷ "media_duration"
    ∷ "transcript_progress" ∷ "browsing" ∷ "peer_uri" ∷ "peer_name" ∷ "call_started" ∷ []

-- Anything unreadable comes back as an empty entry.
unfoldable pub gw_load : Option Raw → Dict Scalar
gw_load (some (object d)) = d
gw_load _ = []

unfoldable pub has_key : String → Dict Scalar → Bool
unfolding lookup
has_key k d = elim (lookup k d) [ none ↦ false | some _ ↦ true ]

abbrev with_field : String → Option Scalar → Dict Scalar → Dict Scalar
with_field k none rest = rest
with_field k (some v) rest = (k, v) ∷ rest

-- {k: gw[k] for k in fields if k in gw}
unfoldable pub ordered : List String → Dict Scalar → Dict Scalar
unfolding lookup
ordered [] gw = []
ordered (k ∷ ks) gw = with_field k (lookup k gw) (ordered ks gw)

-- {k: v for k, v in gw.items() if k not in done}
unfoldable pub others : Dict Scalar → Dict Scalar → Dict Scalar
unfolding has_key
others done [] = []
others done ((k, v) ∷ gw) =
    let rest = others done gw in if has_key k done then rest else (k, v) ∷ rest

unfoldable pub gw_dump : Dict Scalar → Raw
unfolding ordered others
gw_dump gw = let first = ordered gw_fields gw in object (first ++ others first gw)

-- Empty and the text "None" read as None.
unfoldable pub clean_part : Scalar → Scalar
unfolding truthy
clean_part (str s) = if not (is_empty s) && not (s == "None") then str s else null
clean_part v = if truthy v then v else null

pub data Status : Type 0 where
  free gone other call ivr idle : Status

abbrev pub is_text : String → Scalar → Bool
is_text s (str t) = t == s
is_text s _ = false

-- What the stored state means operationally.
unfoldable pub derive_state : Dict Scalar → Status
unfolding truthy clean_part field
derive_state gw =
    let state = clean_part (field "gw_state" gw) in
    if is_text "created" state || is_text "stopped" state
    then free
    else if is_text "deleted" state
    then gone
    else if not (is_text "started" state)
    then other
    else if truthy (clean_part (field "room" gw))
    then call
    else if truthy (clean_part (field "call_started" gw))
        || truthy (clean_part (field "peer_uri" gw))
    then ivr
    else idle
