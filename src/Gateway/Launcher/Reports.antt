-- ===== src/Gateway/Launcher/Reports.antt =====
-- HTTPLauncher.py and deploy/proxyAPI/proxy.py: the peer that a launcher tells is the one that the
-- proxy shows.
use sipmedia_gw.Prelude.{
  String, ◌==◌, ◌≡◌, refl, sym, ◌∙◌, ap, subst, Bool, true, false, inl, inr, Option, none, some,
  List, [], ◌∷◌, Dict, lookup, insert, lookup-insert, dict_laws, if◌then◌else◌, if_true, if_false,
  Bool-cases,
}
use sipmedia_gw.Text.{contains}
use sipmedia_gw.Outcome.{Outcome, ok, >>=-eq-ok}
use sipmedia_gw.Gateway.Names.{parse_display_name}
use sipmedia_gw.Gateway.Launcher.{or_empty}
use sipmedia_gw.Gateway.Launcher.Status.{
  Host, Value, object, other, latest, with_peer, with_value_of, value_in, has_key, with_history,
  with_scripts, history_or_crash, get_status, status_of, status_in,
}
use sipmedia_gw.Proxy.Entry.{Scalar, null, str, field}
use sipmedia_gw.Proxy.Pool.Answer.{update_progress, update_progress-Reported, text_or_null}

-- What the proxy reads from the JSON text of a status.
abbrev pub scalars : Dict String → Dict Scalar
scalars [] = []
scalars ((k, v) ∷ d) = (k, str v) ∷ scalars d

-- The fields of a status that a peer's call leaves.
abbrev pub Peer : Dict String → Dict String → Type 0
Peer call resp =
    (lookup "peer_uri" resp ≡ some (or_empty (lookup "sourceURI" call)))
    × (lookup "peer_name" resp
        ≡ some (parse_display_name (or_empty (lookup "peerDisplayName" call))))
    × (lookup "call_started" resp ≡ some (or_empty (lookup "timestamp" call)))

with_peer-Peer : (call resp : Dict String) → Peer call (with_peer (some (object call)) resp)
unfolding with_peer
with_peer-Peer call resp = (simp dict_laws, simp dict_laws, simp dict_laws)

made : (d after : Dict String) → ok d ≡ ok after → d ≡ after
made d after e = cc e

inj : (w v : String) → some w ≡ some v → w ≡ v
inj w v e = cc e

kept :
    (key j s : String) (d : Dict String)
    → (key == j) ≡ false
    → lookup j (insert key s d) ≡ lookup j d
kept key j s d e = lookup-insert key j s d ∙ if_false _ _ _ e

with_value_of-Peer :
    (key : String) (o : Option Value) (call resp after : Dict String)
    → (key == "peer_uri") ≡ false
    → (key == "peer_name") ≡ false
    → (key == "call_started") ≡ false
    → with_value_of key o resp ≡ ok after
    → Peer call resp
    → Peer call after
with_value_of-Peer key none call resp after a b c e h = subst (Peer call) (made resp after e) h
with_value_of-Peer key (some other) call resp after a b c e h = cc e
with_value_of-Peer key (some (object v)) call resp after a b c e h =
    let x = >>=-eq-ok (value_in (lookup "value" v)) (λ s. ok (insert key s resp)) e in
    subst (Peer call) (made _ _ x.2) (
      kept key "peer_uri" x.0 resp a ∙ h.0,
      kept key "peer_name" x.0 resp b ∙ h.1,
      kept key "call_started" x.0 resp c ∙ h.2,
    )

if_Peer :
    (b : Bool) (call after : Dict String) (x y : Outcome (Dict String))
    → (x ≡ ok after → Peer call after)
    → (y ≡ ok after → Peer call after)
    → (if b then x else y) ≡ ok after
    → Peer call after
if_Peer true call after x y h k e = h e
if_Peer false call after x y h k e = k e

with_history-Peer :
    (history : Dict (List Value)) (call resp after : Dict String)
    → latest "call_start" history ≡ some (object call)
    → with_history history resp ≡ ok after
    → Peer call after
unfolding with_history
with_history-Peer history call resp after l e =
    let blank = insert "call_started" "" (
      insert "peer_name" ""
        (insert "peer_uri" "" (insert "room" "" (insert "browsing" "" resp)))) in
    let peer = with_peer (latest "call_start" history) blank in
    let first = subst (λ o. Peer call (with_peer o blank)) (sym l) (with_peer-Peer call blank) in
    if_Peer (has_key "gw_start" history) call after _ (ok peer)
      (λ f.
        let x = >>=-eq-ok (with_value_of "room" (latest "room" history) peer) _ f in
        with_value_of-Peer "browsing" (latest "browsing" history) call x.0 after refl refl refl x.2
          (with_value_of-Peer "room" (latest "room" history) call peer x.0 refl refl refl x.1
            first))
      (λ f. subst (Peer call) (made peer after f) first) e

abbrev or_null : Option Scalar → Scalar
or_null none = null
or_null (some v) = v

lookup-scalars :
    (k : String) (d : Dict String) (v : String) → lookup k d ≡ some v → field k (scalars d) ≡ str v
unfolding field lookup
lookup-scalars k [] v e = cc
lookup-scalars k ((j, w) ∷ d) v e = elim (Bool-cases (j == k)) [
  | inl f ↦
      ap or_null (if_true (j == k) (some (str w)) (lookup k (scalars d)) f)
      ∙ ap str (inj w v (sym (if_true (j == k) (some w) (lookup k d) f) ∙ e))
  | inr f ↦
      ap or_null (if_false (j == k) (some (str w)) (lookup k (scalars d)) f)
      ∙ lookup-scalars k d v (sym (if_false (j == k) (some w) (lookup k d) f) ∙ e)
]

-- What the proxy's entry of a gateway shows of the peer of its call.
abbrev pub Shown : Dict String → Dict Scalar → Type 0
Shown call entry =
    (field "peer_uri" entry ≡ text_or_null (str (or_empty (lookup "sourceURI" call))))
    × (field "peer_name" entry
        ≡ text_or_null (str (parse_display_name (or_empty (lookup "peerDisplayName" call)))))
    × (field "call_started" entry ≡ text_or_null (str (or_empty (lookup "timestamp" call))))

Peer-Shown :
    (call resp : Dict String) (gw : Dict Scalar)
    → Peer call resp
    → Shown call (update_progress gw (scalars resp))
Peer-Shown call resp gw h =
    let r = update_progress-Reported gw (scalars resp) in
    (
      r.peer_uri ∙ ap text_or_null (lookup-scalars "peer_uri" resp _ h.0),
      r.peer_name ∙ ap text_or_null (lookup-scalars "peer_name" resp _ h.1),
      r.call_started ∙ ap text_or_null (lookup-scalars "call_started" resp _ h.2),
    )

-- Where a gateway runs, has a call in its history, and the launcher's status of it is an answer, the
-- proxy that updates its entry from that status shows the peer and the start of the last call that
-- the history tells.
pub get_status-Shown :
    (host : Host) (gw_id status name : String) (history : Dict (List Value))
    (call resp : Dict String) (gw : Dict Scalar)
    → host.project_status gw_id ≡ some status
    → contains "exited" status ≡ false
    → host.container gw_id ≡ some name
    → host.history_of name ≡ some history
    → latest "call_start" history ≡ some (object call)
    → get_status host gw_id ≡ ok resp
    → Shown call (update_progress gw (scalars resp))
unfolding get_status
get_status-Shown host gw_id status name history call resp gw p x n h l e =
    let started = with_scripts host name (("gw_state", "up") ∷ ("gw_id", gw_id) ∷ []) in
    let way =
      ap (status_of host gw_id) p
      ∙ if_false _ _ _ x
      ∙ ap (status_in host gw_id) n
      ∙ ap (λ o. history_or_crash o started) h in
    Peer-Shown call resp gw (with_history-Peer history call started resp l (sym way ∙ e))
