-- ===== src/Proxy/Peer.antt =====
-- deploy/proxyAPI/proxy.py: GET /gateway_id, the gateway that serves an endpoint.
pub mod Newest
use sipmedia_gw.Prelude.{
  ℕ, String, Bool, true, false, not, ◌&&◌, Option, none, some, List, [], ◌∷◌, ◌==◌, Dict,
  if◌then◌else◌,
}
use sipmedia_gw.Text.{lower, append, is_empty, text_gt}
use sipmedia_gw.SipUri.{normalize_sip_uri}
use sipmedia_gw.Proxy.Entry.{Scalar, null, str, Raw, is_held, field, clean_part, gw_load}
use sipmedia_gw.Proxy.Redis.{Redis, Key, gateway}
use sipmedia_gw.Proxy.Access.{
  Config, Request, Outcome, ok, refuse, crash, ◌>>=◌, authorize_room, get,
}
use sipmedia_gw.Proxy.Pool.Allocate.{key_gw_id}

-- The best match so far.
pub record Best : Type 0 where
  pub gw_id : String
  pub room : Scalar
  pub browsing : Scalar
  pub call_started : String

-- A text, or "" for null; a string method or a comparison fails on anything else.
abbrev pub as_text : Scalar → Outcome String
as_text null = ok ""
as_text (str t) = ok t
as_text _ = crash

-- normalizeSipUri(uri).lower()
unfoldable pub address : String → String
unfolding normalize_sip_uri lower
address uri = lower (normalize_sip_uri uri)

abbrev pub newer : Best → Option Best → Option Best
newer b none = some b
newer b (some best) = if text_gt b.call_started best.call_started then some b else some best

-- One entry of the scan.
unfoldable pub consider : String → String → Dict Scalar → Option Best → Outcome (Option Best)
unfolding address clean_part field text_gt key_gw_id
consider wanted id gw best = do
  peer ← as_text (clean_part (field "peer_uri" gw))
  let serves = not (is_empty peer) && address peer == wanted
  let found = as_text (clean_part (field "call_started" gw)) >>= λ started. ok (
      newer
        (record {
          gw_id = key_gw_id id;
          room = clean_part (field "room" gw);
          browsing = clean_part (field "browsing" gw);
          call_started = started;
        })
        best)
  if serves then found else ok best

module _ (r : Redis) where
  open r use {Store}

  unfoldable pub find_peer : String → ℕ → List String → Option Best → Store → Outcome (Option Best)
  unfolding get is_held gw_load consider
  find_peer wanted now [] best s = ok best
  find_peer wanted now (id ∷ ids) best s =
      let raw = get r now s (gateway id) in
      let next = if is_held raw then consider wanted id (gw_load raw) best else ok best in
      next >>= λ best'. find_peer wanted now ids best' s

  abbrev answer_peer : String → Option Best → Outcome Best
  answer_peer uri none = refuse 404 (append "No gateway currently serving '" (append uri "'"))
  answer_peer uri (some b) = ok b

  -- GET /gateway_id?peer_uri=<uri>
  unfoldable pub gateway_id : Config → Request → String → ℕ → List String → Store → Outcome Best
  unfolding authorize_room find_peer append
  gateway_id cfg req uri now ids s =
      if not (authorize_room cfg req)
      then refuse 401 "authorization error"
      else if is_empty uri
      then refuse 400 "Missing 'peer_uri' parameter"
      else (do best ← find_peer (address uri) now ids none s; answer_peer uri best)
