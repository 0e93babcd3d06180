-- ===== src/Gateway/Launcher.antt =====
-- HTTPLauncher.py: DockerGateway, which starts and stops the containers of a gateway and tells its
-- status, and the routes that call it.
pub mod Arguments
pub mod Status
pub mod Reports
pub mod Commands
pub mod Keys
mod Tests
use sipmedia_gw.Prelude.{
  String, ◌==◌, Bool, true, false, ◌&&◌, Option, none, some, List, [], ◌∷◌, ◌++◌, any,
  if◌then◌else◌,
}
use sipmedia_gw.Text.{append, is_empty}
use sipmedia_gw.Outcome.{Outcome, ok, refuse, crash}

pub record StartRequest : Type 0 where
  pub room : String
  pub gw_id : String
  pub main_app : String
  pub browsing_name : Option String
  pub from_id : Option String
  pub prefix : Option String
  pub rtmp_dst : Option String
  pub dial : Option String
  pub loop : Option Bool
  pub transcript : Option String
  pub audio_only : Option String
  pub api_key : Option String
  pub recipient_mail : Option String

abbrev pub or_empty : Option String → String
or_empty none = ""
or_empty (some s) = s

-- An option with its value, where there is one that is not empty.
abbrev pub option : String → String → List String
option flag value = if is_empty value then [] else flag ∷ value ∷ []

abbrev pub flag_if : Bool → String → List String
flag_if b flag = if b then flag ∷ [] else []

abbrev pub is_set : Option Bool → Bool
is_set none = false
is_set (some b) = b

-- What start_gateway passes to SIPMediaGW.sh: no option for the caller.
unfoldable pub start_args : StartRequest → List String
start_args req =
    "-r"
    ∷ req.room
    ∷ (option "-p" (or_empty req.prefix)
        ++ (option "-b" (or_empty req.browsing_name)
            ++ (option "-u" (or_empty req.rtmp_dst)
                ++ (option "-d" (or_empty req.dial)
                    ++ (flag_if (is_set req.loop) "-l"
                        ++ (flag_if (or_empty req.transcript == "true") "-s"
                            ++ (flag_if (or_empty req.audio_only == "true") "-o"
                                ++ (option "-k" (or_empty req.api_key)
                                    ++ (option "-m" (or_empty req.recipient_mail)
                                        ++ (option "-g" req.gw_id
                                            ++ option "-a" req.main_app))))))))))

-- The routes turn a ValueError into a 404 and any other exception into a 500.
abbrev pub value_error {ℓ} : {A : Type ℓ} → String → Outcome A
value_error detail = refuse 404 detail

abbrev pub route {ℓ} : {A : Type ℓ} → Outcome A → Outcome A
route (ok x) = ok x
route (refuse code detail) = refuse code detail
route crash = refuse 500 ""

-- start_gateway, on the "res" that the script prints.
unfoldable pub start_gateway : StartRequest → Option String → Outcome (String × String)
start_gateway req none = value_error "Failed to start gateway container"
start_gateway req (some res) =
    if res == "ok"
    then ok ("working", req.gw_id)
    else value_error "Failed to start gateway container"

pub record StopRequest : Type 0 where
  pub stop_id : String
  pub force : Option Bool

-- What a model gives to `in`: its fields, each with its value.
pub data Item : Type 0 where
  text : String → Item
  with_value : String → Item → Item
  flag : Option Bool → Item

abbrev pub is_item : String → Item → Bool
is_item s (text t) = s == t
is_item s (with_value name v) = false
is_item s (flag b) = false

unfoldable pub items : StopRequest → List Item
items req = with_value "gw_id" (text req.stop_id) ∷ with_value "force" (flag req.force) ∷ []

-- The command of stop_gateway, for a project that is among the running ones.
unfoldable pub stop_args : List String → StopRequest → Outcome (List String)
unfolding items any append
stop_args projects req =
    if any (λ p. p == req.stop_id) projects
    then ok (
        "docker"
        ∷ "compose"
        ∷ "-p"
        ∷ req.stop_id
        ∷ (if any (is_item "force") (items req) && is_set req.force
            then "down" ∷ []
            else "stop" ∷ "gw" ∷ []))
    else value_error (append "no running container for gw_id=" req.stop_id)
