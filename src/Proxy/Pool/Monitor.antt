-- ===== src/Proxy/Pool/Monitor.antt =====
-- deploy/proxyAPI/proxy.py: the monitor that asks every gateway for its status.
pub mod Laws
pub mod Overwrites
use sipmedia_gw.Prelude.{
  ℕ, String, Bool, true, false, Option, none, some, List, [], ◌∷◌, Dict, if◌then◌else◌,
}
use sipmedia_gw.Proxy.Entry.{Scalar, Raw, truthy, field, is_text, is_held, gw_load, gw_dump}
use sipmedia_gw.Proxy.Redis.{Redis, Key, gateway}
use sipmedia_gw.Proxy.Access.{get}
use sipmedia_gw.Proxy.Pool.Answer.{Reply, answer, Payload, fields, update_progress}
use sipmedia_gw.Proxy.Pool.Allocate.{key_gw_id}

module _ (r : Redis) where
  open r use {Store, put, delete}

  abbrev store_report : String → Dict Scalar → Payload → Store → Store
  store_report id gw (fields info) s = put (gateway id) (gw_dump (update_progress gw info)) s
  store_report id gw _ s = delete (gateway id) s

  -- _fetchAndStoreGatewayStatus, given the entry as it was read and the gateway's reply: any error
  -- ends the mapping.
  unfoldable pub store_status : String → Dict Scalar → Reply → Store → Store
  unfolding gw_dump update_progress
  store_status id gw (answer code status info) s =
      if is_text "success" status then store_report id gw info s else delete (gateway id) s
  store_status id gw _ s = delete (gateway id) s

  -- monitorOneGateway
  unfoldable pub monitor_one : String → Reply → ℕ → Store → Store
  unfolding get gw_load store_status
  monitor_one id reply now s = store_status id (gw_load (get r now s (gateway id))) reply s

  -- One entry of a cycle: one that is gone, or has no address, is skipped.
  unfoldable pub monitor_entry : (String → Reply) → ℕ → String → Store → Store
  unfolding get gw_load store_status truthy field is_held key_gw_id
  monitor_entry replies now id s =
      let raw = get r now s (gateway id) in
      let gw = gw_load raw in
      if is_held raw
      then (if truthy (field "gw_ip" gw)
          then store_status (key_gw_id id) gw (replies (key_gw_id id)) s
          else s)
      else s

  -- One cycle of monitorGateways over the ids that SCAN gives.
  unfoldable pub monitor_cycle : (String → Reply) → ℕ → List String → Store → Store
  unfolding monitor_entry
  monitor_cycle replies now [] s = s
  monitor_cycle replies now (id ∷ ids) s =
      monitor_cycle replies now ids (monitor_entry replies now id s)
