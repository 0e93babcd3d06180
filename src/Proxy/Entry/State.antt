-- ===== src/Proxy/Entry/State.antt =====
-- deploy/proxyAPI/proxy.py: what the code reads of an entry after a field is written, and what each
-- operational state says of the entry.
use sipmedia_gw.Prelude.{
  String, ◌≡◌, Bool, true, ◌↔◌, arith, ◌==◌, not, ◌||◌, if◌then◌else◌, insert, lookup-insert, Dict,
  ◌⊎◌, inl, inr, eq_iff,
}
use sipmedia_gw.Proxy.Entry.{
  Scalar, str, null, Status, free, gone, other, call, ivr, idle, field, truthy, clean_part,
  derive_state, is_text,
}

pub field-insert :
    (k j : String) (v : Scalar) (d : Dict Scalar)
    → field j (insert k v d) ≡ (if k == j then v else field j d)
unfolding field
field-insert k j v d = ground (arith, lookup-insert k j v d)

pub is_text→eq : (s : String) (v : Scalar) → is_text s v ≡ true → v ≡ str s
is_text→eq s (str t) h = ground (arith, eq_iff t s)
is_text→eq s null h = cc
is_text→eq s (Scalar.num n) h = cc
is_text→eq s (Scalar.flag b) h = cc

clean_part-str : (v : Scalar) (s : String) → clean_part v ≡ str s → v ≡ str s
unfolding clean_part truthy
clean_part-str (str t) s h = ground arith
clean_part-str null s h = ground arith
clean_part-str (Scalar.num n) s h = ground arith
clean_part-str (Scalar.flag b) s h = ground arith

-- The tests of `derive_state`, in their order.
abbrev ladder : Bool → Bool → Bool → Bool → Bool → Bool → Bool → Status
ladder created stopped deleted started room since peer =
    if created || stopped
    then free
    else if deleted
    then gone
    else if not started
    then other
    else if room
    then call
    else if since || peer
    then ivr
    else idle

ladder-free : (a b c d e f g : Bool) → ladder a b c d e f g ≡ free → (a ≡ true) ⊎ (b ≡ true)
ladder-free a b c d e f g h = ground arith

ladder-call : (a b c d e f g : Bool) → ladder a b c d e f g ≡ call → (d ≡ true) × (e ≡ true)
ladder-call a b c d e f g h = ground arith

module _ (gw : Dict Scalar) (s : String) where
  stored_state : is_text s (clean_part (field "gw_state" gw)) ≡ true → field "gw_state" gw ≡ str s
  stored_state h =
      clean_part-str (field "gw_state" gw) s (is_text→eq s (clean_part (field "gw_state" gw)) h)

abbrev reads : Dict Scalar → String → Bool
reads gw s = is_text s (clean_part (field "gw_state" gw))

abbrev has : Dict Scalar → String → Bool
has gw k = truthy (clean_part (field k gw))

free_state :
    (gw : Dict Scalar)
    → derive_state gw ≡ free
    → (field "gw_state" gw ≡ str "created") ⊎ (field "gw_state" gw ≡ str "stopped")
unfolding derive_state
free_state gw h =
    elim (ladder-free (reads gw "created") (reads gw "stopped") (reads gw "deleted")
      (reads gw "started") (has gw "room") (has gw "call_started") (has gw "peer_uri") h) [
        | inl e ↦ inl (stored_state gw "created" e)
        | inr e ↦ inr (stored_state gw "stopped" e)
      ]

-- The operational state is "free" exactly for the two stored states that an allocation accepts.
pub derive_state-free :
    (gw : Dict Scalar)
    → (derive_state gw ≡ free)
      ↔ ((field "gw_state" gw ≡ str "created") ⊎ (field "gw_state" gw ≡ str "stopped"))
unfolding derive_state clean_part
derive_state-free gw = (free_state gw, elim [ inl e ↦ rw e | inr e ↦ rw e ])

call_state :
    (gw : Dict Scalar)
    → derive_state gw ≡ call
    → (field "gw_state" gw ≡ str "started") × (truthy (clean_part (field "room" gw)) ≡ true)
unfolding derive_state
call_state gw h =
    let (started, room) =
      ladder-call (reads gw "created") (reads gw "stopped") (reads gw "deleted")
        (reads gw "started") (has gw "room") (has gw "call_started") (has gw "peer_uri") h in
    (stored_state gw "started" started, room)

-- The operational state is "call" exactly when the stored state is "started" and the entry names
-- a room, the text "None" being no name.
pub derive_state-call :
    (gw : Dict Scalar)
    → (derive_state gw ≡ call)
      ↔ ((field "gw_state" gw ≡ str "started") × (truthy (clean_part (field "room" gw)) ≡ true))
unfolding derive_state
derive_state-call gw =
    (call_state gw, λ h. unfold clean_part in rw (h.0) (unfold clean_part in rw (h.1)))
