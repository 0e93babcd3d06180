-- ===== src/Gateway/Launcher/Keys.antt =====
-- HTTPLauncher.py: what sendCommand does on a gateway, command by command.
use Prim.Native.String.{[], ◌∷◌}
use Prim.Native.Char.{Char}
use sipmedia_gw.Prelude.{
  ℕ, suc, ◌≤◌, String, ◌==◌, eq_iff, ◌≡◌, refl, ap, sym, ◌∙◌, Bool, true, false, ◌||◌, Option, none,
  some, List, [], ◌∷◌, ◌++◌, All, Bool-cases, inl, inr, if◌then◌else◌, arith,
}
use sipmedia_gw.Text.{is_empty}
use sipmedia_gw.Ingest.Values.{
  Json, null, bool, whole, real, text, list, object, Items, no_items, item, Fields, no_fields,
  field,
}
use sipmedia_gw.Gateway.Launcher.Commands.{
  Script, camera, microphone, Action, press, hang_up, run, Payload, Answer, key_name, char_name,
  press_chars, is_switch, perform_command, command, is_text, press_items, press_names, send_string,
  send_key, chat, display_name, value_of, truthy, is_absent,
}

module _ (spelled : Json → String) (is_zero : String → Bool) (answers : Script → Option Json) where
  abbrev pub key_command : String → Payload
  key_command k = record { command = some (text "sendKey"); param1 = some (text k) }

  abbrev pub string_command : String → Payload
  string_command s = record { command = some (text "sendString"); param1 = some (text s) }

  -- What the commands that send each character as a key would do, one after the other.
  unfoldable pub each_key : String → List Action
  unfolding perform_command
  each_key [] = []
  each_key (c ∷ s) =
      (perform_command spelled is_zero answers (key_command (c ∷ []))).1 ++ each_key s

  size : String → ℕ
  size [] = 0
  size (c ∷ s) = suc (size s)

  not_word : (c : Char) (w : String) → 2 ≤ size w → ((c ∷ []) == w) ≡ false
  unfolding size
  not_word c w long = elim (Bool-cases ((c ∷ []) == w)) [
    | inl same ↦
        let one = ap size ((eq_iff (c ∷ []) w).0 same) in let no : ⊥ = omega arith in elim no [ ]
    | inr other ↦ other
  ]

  same_choice :
      (hash enter star back : Bool) (x y z : String)
      → enter ≡ false
      → back ≡ false
      → (if hash || enter then x else if star || back then y else z)
        ≡ (if hash then x else if star then y else z)
  same_choice true enter star back x y z no_enter no_back = refl
  same_choice false enter true back x y z no_enter no_back = rw no_enter refl
  same_choice false enter false back x y z no_enter no_back = rw (no_enter, no_back) refl

  key_name-char_name : (c : Char) → key_name (c ∷ []) ≡ char_name (c ∷ [])
  unfolding key_name char_name size
  key_name-char_name c =
      same_choice ((c ∷ []) == "#") ((c ∷ []) == "Enter") ((c ∷ []) == "*")
        ((c ∷ []) == "Backspace") _ _ _ (not_word c "Enter" (omega arith))
        (not_word c "Backspace" (omega arith))

  -- Sending a text presses the keys that sending each of its characters in turn would press.
  pub send_string-send_key :
      (s : String) → (perform_command spelled is_zero answers (string_command s)).1 ≡ each_key s
  unfolding perform_command each_key press_chars
  send_string-send_key [] = refl
  send_string-send_key (c ∷ s) =
      ap (λ k. press k ∷ press_chars s) (sym (key_name-char_name c))
      ∙ ap (λ rest. press (key_name (c ∷ [])) ∷ rest) (send_string-send_key s)

  -- An action that does not switch the camera or the microphone, or switches it on or off.
  unfoldable pub is_safe : Action → Bool
  is_safe (press k) = true
  is_safe hang_up = true
  is_safe (run (camera v)) = is_switch (some v)
  is_safe (run (microphone v)) = is_switch (some v)
  is_safe (run script) = true

  abbrev Safe : Answer → Type 0
  Safe answer = All (λ a. is_safe a ≡ true) answer.1

  if-Safe : (b : Bool) (x y : Answer) → (b ≡ true → Safe x) → Safe y → Safe (if b then x else y)
  if-Safe true x y safe other = safe refl
  if-Safe false x y safe other = other

  presses : (s : String) → All (λ a. is_safe a ≡ true) (press_chars s)
  unfolding press_chars is_safe
  presses [] = _
  presses (c ∷ s) = (refl, presses s)

  press_items-Safe :
      (xs : Items) → All (λ a. is_safe a ≡ true) (press_items spelled is_zero answers xs)
  unfolding press_items is_safe
  press_items-Safe no_items = _
  press_items-Safe (item v xs) = (refl, press_items-Safe xs)

  press_names-Safe :
      (d : Fields) → All (λ a. is_safe a ≡ true) (press_names spelled is_zero answers d)
  unfolding press_names is_safe
  press_names-Safe no_fields = _
  press_names-Safe (field k v d) = (refl, press_names-Safe d)

  send_string-Safe :
      (command param : Option Json)
      → Safe (send_string spelled is_zero answers (record { command = command; param1 = param }))
  send_string-Safe command none = _
  send_string-Safe command (some null) = _
  send_string-Safe command (some (bool b)) = _
  send_string-Safe command (some (whole z)) = _
  send_string-Safe command (some (real s)) = _
  send_string-Safe command (some (text s)) = presses s
  send_string-Safe command (some (list xs)) = press_items-Safe xs
  send_string-Safe command (some (object d)) = press_names-Safe d

  send_key-Safe :
      (command param : Option Json)
      → Safe (send_key spelled is_zero answers (record { command = command; param1 = param }))
  unfolding is_safe
  send_key-Safe command none = _
  send_key-Safe command (some k) = (refl, _)

  chat-Safe :
      (command param : Option Json)
      → Safe (chat spelled is_zero answers (record { command = command; param1 = param }))
  unfolding is_safe
  chat-Safe command none = _
  chat-Safe command (some msg) = (refl, _)

  switched :
      (param : Option Json) → is_switch param ≡ true → is_switch (some (value_of param)) ≡ true
  switched none on = cc
  switched (some v) on = on

  display_name-Safe : (param : Option Json) → Safe (display_name spelled is_zero answers param)
  unfolding is_safe
  display_name-Safe none = (refl, _)
  display_name-Safe (some null) = (refl, _)
  display_name-Safe (some (bool b)) = (refl, _)
  display_name-Safe (some (whole z)) = (refl, _)
  display_name-Safe (some (real s)) = (refl, _)
  display_name-Safe (some (text s)) = if-Safe (is_empty s) _ _ (λ e. (refl, _)) (refl, _)
  display_name-Safe (some (list xs)) = (refl, _)
  display_name-Safe (some (object d)) = (refl, _)

  -- No command of the interface asks the meeting to set its camera or its microphone to anything
  -- but "on" or "off", whatever its fields hold.
  pub command-is_safe :
      (found : Bool) (p : Payload)
      → All (λ a. is_safe a ≡ true) (command spelled is_zero answers found p).1
  unfolding command perform_command is_safe
  command-is_safe false p = _
  command-is_safe true p =
      if-Safe (is_absent p.command) _ _ (λ e. _)
        (if-Safe (is_text "sendKey" p.command) _ _ (λ e. send_key-Safe p.command p.param1)
          (if-Safe (is_text "sendString" p.command) _ _ (λ e. send_string-Safe p.command p.param1)
            (if-Safe (is_text "sendChat" p.command) _ _ (λ e. chat-Safe p.command p.param1)
              (if-Safe (is_text "endCall" p.command) _ _ (λ e. (refl, _))
                (if-Safe (is_text "slideShot" p.command) _ _ (λ e. (refl, _))
                  (if-Safe (is_text "reaction" p.command) _ _
                    (λ e.
                      if-Safe (truthy spelled is_zero answers (value_of p.param1)) _ _
                        (λ f. (refl, _)) _)
                    (if-Safe (is_text "mediaState" p.command) _ _ (λ e. (refl, _))
                      (if-Safe (is_text "uiState" p.command) _ _ (λ e. (refl, _))
                        (if-Safe (is_text "panelState" p.command) _ _ (λ e. (refl, _))
                          (if-Safe (is_text "camera" p.command) _ _
                            (λ e.
                              if-Safe (is_switch p.param1) _ _ (λ on. (switched p.param1 on, _)) _)
                            (if-Safe (is_text "microphone" p.command) _ _
                              (λ e.
                                if-Safe (is_switch p.param1) _ _ (λ on. (switched p.param1 on, _))
                                  _)
                              (if-Safe (is_text "displayName" p.command) _ _
                                (λ e. display_name-Safe p.param1)
                                (if-Safe (is_text "roomName" p.command) _ _ (λ e. (refl, _))
                                  _)))))))))))))
