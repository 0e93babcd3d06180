-- ===== src/Proxy/Pool/Tests.antt =====
-- deploy/proxyAPI/proxy.py: the registry's operations on concrete entries.
use sipmedia_gw.Prelude.{◌≡◌, refl, String, Option, none, some, [], ◌∷◌, Dict}
use sipmedia_gw.Text.{has_char}
use sipmedia_gw.Proxy.Entry.{Scalar, str, object}
use sipmedia_gw.Proxy.Redis.{Key, gateway, Cell}
use sipmedia_gw.Proxy.Redis.Memory.{memory, empty}
use sipmedia_gw.Proxy.Access.{Request, get}
use sipmedia_gw.Proxy.Pool.Answer.{Payload, fields, Reply, answer}
use sipmedia_gw.Proxy.Pool.Allocate.{Job, find_available, start_finish}
use sipmedia_gw.Proxy.Pool.Allocate.Start.{Finds, find_available-Finds}
use sipmedia_gw.Proxy.Pool.Monitor.{monitor_cycle}
use sipmedia_gw.Proxy.Pool.Monitor.Laws.{refreshed, get-monitor_cycle}
use sipmedia_gw.Proxy.Pool.Register.{register, unregister}
use sipmedia_gw.Proxy.Pool.Register.Laws.{Registers, register-Registers}
use sipmedia_gw.Proxy.Pool.Stop.{Halt}
use sipmedia_gw.Proxy.Peer.{find_peer}
use sipmedia_gw.Proxy.Peer.Newest.{Newest, find_peer-Newest}
use sipmedia_gw.Proxy.Tests.{config}

abbrev busy : Dict Scalar
busy =
    ("gw_ip", str "10.0.0.2")
    ∷ ("gw_state", str "started")
    ∷ ("peer_uri", str "sip:alice@example.org")
    ∷ ("room", str "conf1")
    ∷ []

abbrev idle : Dict Scalar
idle = ("gw_ip", str "10.0.0.3") ∷ ("gw_state", str "stopped") ∷ []

abbrev held : Key → Option Cell
held = memory.put (gateway "a") (object busy) (memory.put (gateway "b") (object idle) empty)

abbrev up : Reply
up = answer 200 (str "success") (fields (("gw_state", str "down") ∷ []))

find_available-Finds_example : Finds memory 5 held ("a" ∷ "b" ∷ []) (some ("b", str "10.0.0.3"))
unfolding find_available
find_available-Finds_example =
    find_available-Finds memory 5 held ("a" ∷ "b" ∷ []) (some ("b", str "10.0.0.3")) refl

get-monitor_cycle_example :
    get memory 5 (monitor_cycle memory (λ id. up) 5 ("a" ∷ []) held) (gateway "a")
    ≡ refreshed up (get memory 5 held (gateway "a"))
unfolding has_char
get-monitor_cycle_example =
    get-monitor_cycle memory 5 (λ id. up) ("a" ∷ []) "a" held (refl, _) (refl, _)

find_peer-Newest_example : Newest memory "nobody" 5 held ("a" ∷ "b" ∷ []) none
unfolding find_peer
find_peer-Newest_example = find_peer-Newest memory "nobody" 5 held ("a" ∷ "b" ∷ []) none refl

abbrev job : Job
job = record { gw_id = "b"; ip = str "10.0.0.3"; room = str "conf2"; browsing = str "visio" }

abbrev asks : String → Request
asks room = record {
  authorization = some "Bearer 1234";
  forwarded_for = none;
  client = some "10.0.0.7";
  body = some (("room", str room) ∷ ("browsing", str "visio") ∷ ("main_app", str "baresip") ∷ []);
}

abbrev job_for : String → Job
job_for room = record { gw_id = "b"; ip = str "10.0.0.3"; room = str room; browsing = str "visio" }

abbrev halt : Halt
halt = record { gw_id = "a"; ip = str "10.0.0.2"; entry = busy }

abbrev stopped_answer : Payload
stopped_answer = fields (("processing_state", str "stopped") ∷ [])

abbrev registration : Dict Scalar
registration = ("gw_ip", str "10.0.0.4") ∷ ("gw_id", str "c") ∷ []

abbrev registers : Request
registers = record {
  authorization = some "Bearer 1234";
  forwarded_for = none;
  client = some "10.0.0.4";
  body = some registration;
}

register-Registers_example :
    Registers memory registration "ABC" "now" 5 held
      (register memory config registers "ABC" "now" 5 held)
register-Registers_example =
    register-Registers memory registration "ABC" "now" 5 config registers held refl

abbrev leaving : Request
leaving = record {
  authorization = some "Bearer 1234";
  forwarded_for = none;
  client = some "10.0.0.2";
  body = some (("gw_id", str "a") ∷ []);
}

abbrev left : Key → Option Cell
left = (unregister memory config leaving 5 held).1

abbrev begun : Key → Option Cell
begun = (start_finish memory job (answer 200 (str "success") (fields [])) 5 held).1
