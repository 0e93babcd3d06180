-- ===== src/Gateway/Launcher/Arguments.antt =====
-- HTTPLauncher.py and SIPMediaGW.sh: the arguments of a start, as the script reads them, and those of
-- a stop.
use Prim.Native.String.{[], ◌∷◌}
use sipmedia_gw.Prelude.{
  String, ◌==◌, ◌≡◌, refl, sym, ◌∙◌, ap, Bool, true, false, Option, none, some, List, [], ◌∷◌, ◌++◌,
  any, if◌then◌else◌, if_true,
}
use sipmedia_gw.Outcome.{ok}
use sipmedia_gw.Gateway.Launcher.{
  StartRequest, or_empty, option, flag_if, is_set, start_args, StopRequest, stop_args,
}

-- The variables that the script sets, empty where it does not.
pub record Options : Type 0 where
  pub main_app : String
  pub browsing_name : String
  pub dial_uri : String
  pub gw_name : String
  pub prefix : String
  pub physical_room : String
  pub room : String
  pub timeout : String
  pub rtmp_dst : String
  pub api_key : String
  pub recipient_mail : String
  pub user_name : String
  pub display : String
  pub gw_proxy : String
  pub audio_only : Bool
  pub with_transcript : Bool
  pub loop : Bool
  pub init : Bool

-- An option with a value, if it is one.
abbrev pub set_value : String → String → Options → Option Options
set_value flag v o =
    if flag == "-a"
    then some (record o { main_app = v })
    else if flag == "-b"
    then some (record o { browsing_name = v })
    else if flag == "-d"
    then some (record o { dial_uri = v })
    else if flag == "-g"
    then some (record o { gw_name = v })
    else if flag == "-p"
    then some (record o { prefix = v })
    else if flag == "-P"
    then some (record o { physical_room = v })
    else if flag == "-r"
    then some (record o { room = v })
    else if flag == "-t"
    then some (record o { timeout = v })
    else if flag == "-u"
    then some (record o { rtmp_dst = v })
    else if flag == "-k"
    then some (record o { api_key = v })
    else if flag == "-m"
    then some (record o { recipient_mail = v })
    else if flag == "-n"
    then some (record o { user_name = v })
    else if flag == "-x"
    then some (record o { display = v })
    else if flag == "-y"
    then some (record o { gw_proxy = v })
    else none

-- An option without one.
abbrev pub set_flag : String → Options → Option Options
set_flag flag o =
    if flag == "-o"
    then some (record o { audio_only = true })
    else if flag == "-s"
    then some (record o { with_transcript = true })
    else if flag == "-l"
    then some (record o { loop = true })
    else if flag == "-i"
    then some (record o { init = true })
    else none

abbrev or_stop : Option Options → (Options → Option Options) → Option Options
or_stop none next = none
or_stop (some o) next = next o

abbrev pub read_next :
    Option Options
    → Option Options
    → (Options → Option Options)
    → (Options → Option Options)
    → Option Options
read_next none valued flagged skipped = or_stop valued skipped
read_next (some o) valued flagged skipped = flagged o

-- The loop of SIPMediaGW.sh over its short options: `none` where it ends in an error, or waits for
-- a value that is not there.
unfoldable pub read_options : List String → Options → Option Options
read_options [] o = some o
read_options (flag ∷ []) o = set_flag flag o
read_options (flag ∷ v ∷ args) o =
    read_next (set_flag flag o) (set_value flag v o) (read_options (v ∷ args)) (read_options args)

abbrev pub unset : Options
unset = record {
  main_app = "";
  browsing_name = "";
  dial_uri = "";
  gw_name = "";
  prefix = "";
  physical_room = "";
  room = "";
  timeout = "";
  rtmp_dst = "";
  api_key = "";
  recipient_mail = "";
  user_name = "";
  display = "";
  gw_proxy = "";
  audio_only = false;
  with_transcript = false;
  loop = false;
  init = false;
}

-- What a request asks of the script, which knows no caller.
abbrev pub wanted : StartRequest → Options
wanted req = record unset {
  main_app = req.main_app;
  browsing_name = or_empty req.browsing_name;
  dial_uri = or_empty req.dial;
  gw_name = req.gw_id;
  prefix = or_empty req.prefix;
  room = req.room;
  rtmp_dst = or_empty req.rtmp_dst;
  api_key = or_empty req.api_key;
  recipient_mail = or_empty req.recipient_mail;
  audio_only = or_empty req.audio_only == "true";
  with_transcript = or_empty req.transcript == "true";
  loop = is_set req.loop;
}

valued :
    (flag : String) (set : String → Options → Options)
    → ((o : Options) → set_flag flag o ≡ none)
    → ((v : String) (o : Options) → set_value flag v o ≡ some (set v o))
    → (v : String) (args : List String) (o : Options)
    → read_options (flag ∷ v ∷ args) o ≡ read_options args (set v o)
unfolding read_options
valued flag set plain has v args o =
    ap (λ z. read_next z (set_value flag v o) (read_options (v ∷ args)) (read_options args))
      (plain o)
    ∙ ap (λ z. read_next none z (read_options (v ∷ args)) (read_options args)) (has v o)

optional :
    (flag : String) (set : String → Options → Options)
    → ((o : Options) → set_flag flag o ≡ none)
    → ((v : String) (o : Options) → set_value flag v o ≡ some (set v o))
    → (v : String) (args : List String) (o : Options) → set "" o ≡ o
    → read_options (option flag v ++ args) o ≡ read_options args (set v o)
optional flag set plain has [] args o same = ap (read_options args) (sym same)
optional flag set plain has (c ∷ v) args o same = valued flag set plain has (c ∷ v) args o

flagged :
    (flag : String) (set : Bool → Options → Options)
    → ((o : Options) → set_flag flag o ≡ some (set true o))
    → (b : Bool) (args : List String) (o : Options) → set false o ≡ o
    → read_options (flag_if b flag ++ args) o ≡ read_options args (set b o)
unfolding read_options
flagged flag set has false args o same = ap (read_options args) (sym same)
flagged flag set has true [] o same = has o
flagged flag set has true (v ∷ args) o same =
    ap (λ z. read_next z (set_value flag v o) (read_options (v ∷ args)) (read_options args)) (has o)

at_end :
    (flag : String) (set : String → Options → Options)
    → ((o : Options) → set_flag flag o ≡ none)
    → ((v : String) (o : Options) → set_value flag v o ≡ some (set v o))
    → (v : String) (o : Options) → set "" o ≡ o
    → read_options (option flag v) o ≡ some (set v o)
unfolding read_options
at_end flag set plain has [] o same = ap some (sym same)
at_end flag set plain has (c ∷ v) o same = valued flag set plain has (c ∷ v) [] o

options-start_args : (req : StartRequest) → read_options (start_args req) unset ≡ some (wanted req)
unfolding start_args
options-start_args req =
    valued "-r" (λ v o. record o { room = v }) (λ o. refl) (λ v o. refl) req.room _ unset
    ∙ optional "-p" (λ v o. record o { prefix = v }) (λ o. refl) (λ v o. refl) (or_empty req.prefix)
        _ _ refl
    ∙ optional "-b" (λ v o. record o { browsing_name = v }) (λ o. refl) (λ v o. refl)
        (or_empty req.browsing_name) _ _ refl
    ∙ optional "-u" (λ v o. record o { rtmp_dst = v }) (λ o. refl) (λ v o. refl)
        (or_empty req.rtmp_dst) _ _ refl
    ∙ optional "-d" (λ v o. record o { dial_uri = v }) (λ o. refl) (λ v o. refl) (or_empty req.dial)
        _ _ refl
    ∙ flagged "-l" (λ b o. record o { loop = b }) (λ o. refl) (is_set req.loop) _ _ refl
    ∙ flagged "-s" (λ b o. record o { with_transcript = b }) (λ o. refl)
        (or_empty req.transcript == "true") _ _ refl
    ∙ flagged "-o" (λ b o. record o { audio_only = b }) (λ o. refl)
        (or_empty req.audio_only == "true") _ _ refl
    ∙ optional "-k" (λ v o. record o { api_key = v }) (λ o. refl) (λ v o. refl)
        (or_empty req.api_key) _ _ refl
    ∙ optional "-m" (λ v o. record o { recipient_mail = v }) (λ o. refl) (λ v o. refl)
        (or_empty req.recipient_mail) _ _ refl
    ∙ optional "-g" (λ v o. record o { gw_name = v }) (λ o. refl) (λ v o. refl) req.gw_id _ _ refl
    ∙ at_end "-a" (λ v o. record o { main_app = v }) (λ o. refl) (λ v o. refl) req.main_app _ refl

-- The script reads from the arguments what the request asks for, field by field and whatever their
-- texts, but for the caller: `from_id` changes nothing.
pub read_options-start_args :
    (req : StartRequest) (id : Option String)
    → (read_options (start_args req) unset ≡ some (wanted req))
      × (start_args (record req { from_id = id }) ≡ start_args req)
unfolding start_args
read_options-start_args req id = (options-start_args req, refl)

-- A forced stop of a running gateway is the same as any other: it never takes the containers down.
pub stop_args-same :
    (projects : List String) (req : StopRequest)
    → any (λ p. p == req.stop_id) projects ≡ true
    → stop_args projects req ≡ ok ("docker" ∷ "compose" ∷ "-p" ∷ req.stop_id ∷ "stop" ∷ "gw" ∷ [])
unfolding stop_args
stop_args-same projects req h = if_true _ _ _ h
