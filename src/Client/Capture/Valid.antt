-- ===== src/Client/Capture/Valid.antt =====
-- src/services/RemoteInputService.ts: what the host's validator will say of what is sent.
use lantern_remote.Common.{
  ℕ, ◌≤◌, ◌≡◌, refl, Bool, true, ◌&&◌, List, [], ◌∷◌, map, some, Text, leb, arith, every, length,
  length-take, subst, every-append,
}
use lantern_remote.Shared.RemoteInput.{
  RemoteInputMessage, mouse_wheel, keyboard, max_key_length, KeyEvent,
}
use lantern_remote.Shared.RemoteInput.Keys.{keyboard_code_whitelist, has, every-has}
use lantern_remote.Shared.RemoteInput.Validity.{IsValid, IsPoint}
use lantern_remote.Client.Capture.{
  Moment, Effect, prevent_default, send, Capture, key_message, key_down, release, add, key_name,
  take, keyup,
}

-- A valid message, but that the deltas of a wheel may be out of bounds.
abbrev pub IsSendable : RemoteInputMessage → Type 0
IsSendable (mouse_wheel delta_x delta_y x y) = IsPoint x y
IsSendable m = IsValid m

abbrev pub AreSendable : List Effect → Type 0
AreSendable [] = Unit
AreSendable (prevent_default ∷ es) = AreSendable es
AreSendable (send m ∷ es) = IsSendable m × AreSendable es

abbrev fits_in : ℕ → Text → Bool
fits_in n code = leb 1 (length code) && leb (length code) n

abbrev fits : Text → Bool
fits code = fits_in max_key_length code

take-fits_in : (n c : ℕ) (cs : Text) → 1 ≤ n → fits_in n (take n (c ∷ cs)) ≡ true
take-fits_in n c cs h = ground (arith, length-take n (c ∷ cs))

codes_fit : every fits keyboard_code_whitelist ≡ true
unfolding keyboard_code_whitelist
codes_fit = refl

code-fits : (code : Text) → has code keyboard_code_whitelist ≡ true → fits code ≡ true
code-fits code h = every-has fits code keyboard_code_whitelist codes_fit h

-- The two ways in which a capture names a key.
named_by_code :
    (event : KeyEvent) (code : Text)
    → has code keyboard_code_whitelist ≡ true
    → IsValid (keyboard event code code)
named_by_code event code h = ground (arith, code-fits code h)

name-fits :
    (key code : Text) → has code keyboard_code_whitelist ≡ true → fits (key_name key code) ≡ true
name-fits [] code h = code-fits code h
name-fits (k ∷ ks) code h = take-fits_in max_key_length k ks (omega arith)

pub key_message-eq_some :
    (event : KeyEvent) (key code : Text) (m : RemoteInputMessage)
    → key_message event key code ≡ some m
    → (has code keyboard_code_whitelist ≡ true) × (keyboard event (key_name key code) code ≡ m)
unfolding key_message
key_message-eq_some event key code m h = ground arith

pub key_message-IsValid :
    (event : KeyEvent) (key code : Text) (m : RemoteInputMessage)
    → key_message event key code ≡ some m
    → IsValid m
key_message-IsValid event key code m h =
    let (listed, e) = key_message-eq_some event key code m h in
    subst IsValid e (ground (arith, name-fits key code listed, listed))

-- Every held key is listed, so that its release is valid.
abbrev pub listed : Text → Bool
listed code = has code keyboard_code_whitelist

pub held-add :
    (code : Text) (held : List Text)
    → listed code ≡ true
    → every listed held ≡ true
    → every listed (add code held) ≡ true
held-add code held l h = ground (arith, every-append listed held (code ∷ []))

pub sendable-release :
    (held : List Text) → every listed held ≡ true → AreSendable (map release held)
sendable-release [] h = tt
sendable-release (code ∷ held) h =
    (named_by_code keyup code (ground arith), sendable-release held (ground arith))

pressed_if :
    (m : Moment) (key code : Text) (s : Capture)
    → every listed s.held_keys ≡ true
    → every listed (key_down m key code s).0.held_keys ≡ true
unfolding key_down key_message
pressed_if m key code s h = ground (arith, held-add code s.held_keys)
