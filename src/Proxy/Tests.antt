-- ===== src/Proxy/Tests.antt =====
-- deploy/proxyAPI/proxy.py: runs on concrete requests and entries.
use sipmedia_gw.Prelude.{◌≡◌, refl, true, false, none, some, [], ◌∷◌, Dict, arith}
use sipmedia_gw.Proxy.Entry.{Scalar, str}
use sipmedia_gw.Proxy.Redis.Memory.{memory, empty}
use sipmedia_gw.Proxy.Access.{Config, Request, ok, too_many_code_tries}
use sipmedia_gw.Proxy.Access.Tries.{code_tries_lock, note_all}

abbrev pub config : Config
config = record {
  allowed_token = "1234";
  admin_token = "adm";
  room_token = "room";
  code_try_limit = 3;
  code_try_window = 60;
  trust_forwarded = false;
  decode_basic = λ s. some s;
}

abbrev pub caller : Request
caller = record {
  authorization = some "Bearer adm";
  forwarded_for = none;
  client = some "10.0.0.7";
  body = none;
}

abbrev entry : Dict Scalar
entry =
    ("gw_state", str "started")
    ∷ ("room", str "conf1")
    ∷ ("note", str "x")
    ∷ ("gw_ip", str "10.0.0.2")
    ∷ []

code_tries_lock_example :
    too_many_code_tries memory config caller 110
      (note_all memory config caller (100 ∷ 101 ∷ 102 ∷ []) empty)
    ≡ ok true
code_tries_lock_example =
    code_tries_lock memory config caller 100 (101 ∷ 102 ∷ []) 110 empty refl refl (omega arith)
