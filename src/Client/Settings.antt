-- ===== src/Client/Settings.antt =====
-- src/stores/settingsStore.ts: the settings and their copy in `localStorage`.
use lantern_remote.Common.{
  ◌≡◌, refl, ap, sym, ◌∙◌, Text-discrete, Bool, true, false, List, [], ◌∷◌, Option, none, some,
  Text, text, ◌==◌, if◌then◌else◌, Text-discrete,
}
use lantern_remote.Dict.{Dict, get, put, get-put}

abbrev pub default_signaling_url : Text
unfolding text
default_signaling_url = text "http://localhost:3001"

abbrev pub default_stun : Text
unfolding text
default_stun = text "stun:stun.l.google.com:19302"

pub data Setting : Type 0 where
  clipboard_sync signaling_url stun_servers : Setting

abbrev pub key_of : Setting → Text
unfolding text
key_of clipboard_sync = text "lantern-setting-clipboardSync"
key_of signaling_url = text "lantern-setting-signalingUrl"
key_of stun_servers = text "lantern-setting-stunServers"

abbrev pub boolean_text : Bool → Text
unfolding text
boolean_text true = text "true"
boolean_text false = text "false"

pub record Settings : Type 0 where
  pub sync : Bool
  pub url : Text
  pub stun : Text

abbrev pub stored_or : Option Text → (default_value : Text) → Text
stored_or none default_value = default_value
stored_or (some stored) default_value = stored

-- `loadStoredSetting`: `none` is a storage of which every call throws.
unfoldable pub load_stored_setting : Option (Dict Text) → Setting → (default_value : Text) → Text
load_stored_setting none key default_value = default_value
load_stored_setting (some storage) key default_value =
    stored_or (get (key_of key) storage) default_value

-- `saveStoredSetting`, which catches the error.
unfoldable pub save_stored_setting :
    Option (Dict Text) → Setting → (value : Text) → Option (Dict Text)
save_stored_setting none key value = none
save_stored_setting (some storage) key value = some (put (key_of key) value storage)

-- The store as the application opens.
unfoldable pub load_settings : Option (Dict Text) → Settings
unfolding load_stored_setting
load_settings storage = record {
  sync = load_stored_setting storage clipboard_sync (boolean_text false) == boolean_text true;
  url = load_stored_setting storage signaling_url default_signaling_url;
  stun = load_stored_setting storage stun_servers default_stun;
}

pub data SettingsEvent : Type 0 where
  set_clipboard_sync : Bool → SettingsEvent
  set_signaling_url set_stun_servers : Text → SettingsEvent

unfoldable pub step : SettingsEvent → Settings × Option (Dict Text) → Settings × Option (Dict Text)
unfolding save_stored_setting
step (set_clipboard_sync b) (s, storage) =
    (record s { sync = b }, save_stored_setting storage clipboard_sync (boolean_text b))
step (set_signaling_url u) (s, storage) =
    (record s { url = u }, save_stored_setting storage signaling_url u)
step (set_stun_servers u) (s, storage) =
    (record s { stun = u }, save_stored_setting storage stun_servers u)

-- The store and the storage after the events of a list, the last one first.
unfoldable pub run : Dict Text → List SettingsEvent → Settings × Option (Dict Text)
unfolding load_settings
run storage [] = (load_settings (some storage), some storage)
run storage (e ∷ past) = step e (run storage past)

stored_or-if :
    (b : Bool) (v d : Text) (o : Option Text)
    → stored_or (if b then some v else o) d ≡ (if b then v else stored_or o d)
stored_or-if true v d o = refl
stored_or-if false v d o = refl

-- What one setting reads after another one, or it itself, has been saved.
load-save :
    (j k : Setting) (v d : Text) (storage : Dict Text)
    → load_stored_setting (save_stored_setting (some storage) k v) j d
      ≡ (if key_of k == key_of j then v else load_stored_setting (some storage) j d)
unfolding load_stored_setting save_stored_setting
load-save j k v d storage =
    ap (λ o. stored_or o d) (get-put (key_of j) (key_of k) v storage)
    ∙ stored_or-if (key_of k == key_of j) v d (get (key_of j) storage)

-- The settings that are loaded after one has been saved.
after_save : Setting → Text → Dict Text → Settings
after_save k v storage = record {
  sync =
      (if key_of k == key_of clipboard_sync
        then v
        else load_stored_setting (some storage) clipboard_sync (boolean_text false))
      == boolean_text true;
  url =
      if key_of k == key_of signaling_url
      then v
      else load_stored_setting (some storage) signaling_url default_signaling_url;
  stun =
      if key_of k == key_of stun_servers
      then v
      else load_stored_setting (some storage) stun_servers default_stun;
}

load_settings-save :
    (k : Setting) (v : Text) (storage : Dict Text)
    → load_settings (save_stored_setting (some storage) k v) ≡ after_save k v storage
unfolding load_settings after_save
load_settings-save k v storage =
    rw
      (
        load-save clipboard_sync k v (boolean_text false) storage,
        load-save signaling_url k v default_signaling_url storage,
        load-save stun_servers k v default_stun storage,
      )
      refl

step-load :
    (e : SettingsEvent) (storage : Dict Text)
    → (step e (load_settings (some storage), some storage)).0
      ≡ load_settings (step e (load_settings (some storage), some storage)).1
unfolding step load_settings after_save key_of text Text-discrete boolean_text
step-load (set_clipboard_sync true) storage =
    sym (load_settings-save clipboard_sync (boolean_text true) storage)
step-load (set_clipboard_sync false) storage =
    sym (load_settings-save clipboard_sync (boolean_text false) storage)
step-load (set_signaling_url u) storage = sym (load_settings-save signaling_url u storage)
step-load (set_stun_servers u) storage = sym (load_settings-save stun_servers u storage)

both :
    {p : Settings × Option (Dict Text)} {s : Settings} {o : Option (Dict Text)}
    → p.0 ≡ s
    → p.1 ≡ o
    → p ≡ (s, o)
both h k = rw (h, k) refl

step-stored :
    (e : SettingsEvent) (s : Settings) (storage : Dict Text)
    → (after : Dict Text) × ((step e (s, some storage)).1 ≡ some after)
unfolding step save_stored_setting
step-stored (set_clipboard_sync b) s storage =
    (put (key_of clipboard_sync) (boolean_text b) storage, refl)
step-stored (set_signaling_url u) s storage = (put (key_of signaling_url) u storage, refl)
step-stored (set_stun_servers u) s storage = (put (key_of stun_servers) u storage, refl)

-- The storage is there, and holds the settings.
run-stored :
    (storage : Dict Text) (events : List SettingsEvent)
    → (now : Dict Text) × (run storage events ≡ (load_settings (some now), some now))
unfolding run
run-stored storage [] = (storage, refl)
run-stored storage (e ∷ past) =
    let (now, same) = run-stored storage past in
    let (after, stored) = step-stored e (load_settings (some now)) now in
    (after, ap (step e) same ∙ both (step-load e now ∙ ap load_settings stored) stored)

-- Whatever `localStorage` holds at the start, and whatever is set in whatever order, the application
-- opens next time with the settings that it has now, as long as `localStorage` can be written.
pub settings_are_kept :
    (storage : Dict Text) (events : List SettingsEvent)
    → load_settings (run storage events).1 ≡ (run storage events).0
settings_are_kept storage events =
    let (now, same) = run-stored storage events in
    ap load_settings (ap (λ p. p.1) same) ∙ sym (ap (λ p. p.0) same)
