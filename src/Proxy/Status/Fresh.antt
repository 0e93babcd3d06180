-- ===== src/Proxy/Status/Fresh.antt =====
-- deploy/proxyAPI/proxy.py: which gateways a request is relayed to.
use sipmedia_gw.Prelude.{
  ℕ, String, ◌≡◌, ap, ◌∙◌, Bool, some, Dict, lookup, Bool-cases, Option-cases, inl, inr,
}
use sipmedia_gw.Proxy.Entry.{Scalar, str, field, is_text, is_held, gw_load}
use sipmedia_gw.Proxy.Entry.State.{is_text→eq}
use sipmedia_gw.Proxy.Redis.{Redis, gateway}
use sipmedia_gw.Proxy.Access.{Request, ok, >>=-eq-ok, get}
use sipmedia_gw.Proxy.Pool.Allocate.{need_ip}
use sipmedia_gw.Text.{is_empty}
use sipmedia_gw.Proxy.Status.{relay, relay_id, relay_body}

need_ip→lookup : (gw : Dict Scalar) (ip : Scalar) → need_ip gw ≡ ok ip → lookup "gw_ip" gw ≡ some ip
unfolding need_ip
need_ip→lookup gw ip h = elim (Option-cases (lookup "gw_ip" gw)) [
  | inl e ↦ cc (rw (need_ip, e) at h)
  | inr (i, e) ↦ cc (e, rw (need_ip, e) at h)
]

module _ (r : Redis) where
  open r use {Store}

  -- A request is relayed only to a gateway whose stored state is "started", at the address that its
  -- entry holds.
  pub relay_started :
      (is_get : Bool) (req : Request) (query_id : String) (now : ℕ) (s : Store) (ip : Scalar)
      → relay r is_get req query_id now s ≡ ok ip
      → let gw = gw_load (get r now s (gateway (relay_id is_get req.body query_id))) in
        (field "gw_state" gw ≡ str "started") × (lookup "gw_ip" gw ≡ some ip)
  unfolding relay
  relay_started is_get req query_id now s ip h =
      let id = relay_id is_get req.body query_id in
      let raw = get r now s (gateway id) in
      elim (Bool-cases (is_empty id)) [
        | inl e ↦ cc (rw e at h)
        | inr e ↦ elim (Bool-cases (is_held raw)) [
          | inr f ↦ cc (rw (e, f) at h)
          | inl f ↦
              let (i, e₁, h₁) = >>=-eq-ok (need_ip (gw_load raw)) _ (rw (e, f) at h) in
              elim (Bool-cases (is_text "started" (field "gw_state" (gw_load raw)))) [
                | inr g ↦ cc (rw g at h₁)
                | inl g ↦
                    let (b, e₂, h₂) = >>=-eq-ok (relay_body is_get req.body) _ (rw g at h₁) in
                    let same : i ≡ ip = cc h₂ in
                    (is_text→eq _ _ g, need_ip→lookup (gw_load raw) ip (e₁ ∙ ap ok same))
              ]
        ]
      ]
