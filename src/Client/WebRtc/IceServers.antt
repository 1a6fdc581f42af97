-- ===== src/Client/WebRtc/IceServers.antt =====
-- src/services/WebRTCService.ts: the list of STUN servers, `buildIceServers`.
use lantern_remote.Common.{
  ℕ, ◌≡◌, refl, Bool, true, false, not, List, [], ◌∷◌, ◌++◌, map, Option, none, some, Text, text,
  eqb, keep, every, if◌then◌else◌, arith, ap, ◌≢◌, keep-eq_self, every-keep,
}

-- `s.split(',')` for the separator's code unit.
abbrev cons_head : ℕ → List Text → List Text
cons_head c [] = (c ∷ []) ∷ []
cons_head c (s ∷ ss) = (c ∷ s) ∷ ss

unfoldable pub split : (separator : ℕ) → Text → List Text
split separator [] = [] ∷ []
split separator (c ∷ s) =
    let rest = split separator s in if eqb c separator then [] ∷ rest else cons_head c rest

abbrev pub comma : ℕ
comma = b','

abbrev pub default_stun_servers : Text
unfolding text
default_stun_servers = text "stun:stun.l.google.com:19302"

abbrev pub not_empty : Text → Bool
not_empty [] = false
not_empty (c ∷ s) = true

-- `a || b` on strings.
abbrev or_text : Text → Text → Text
or_text [] b = b
or_text (c ∷ s) b = c ∷ s

-- `a || b` where a may be undefined.
abbrev or_default : Option Text → Text → Text
or_default none b = b
or_default (some a) b = or_text a b

abbrev or_servers : List Text → List Text
or_servers [] = default_stun_servers ∷ []
or_servers (u ∷ us) = u ∷ us

abbrev pub urls_in : (trim : Text → Text) → (raw : Text) → List Text
urls_in trim raw = keep not_empty (map trim (split comma raw))

module _ (trim : Text → Text) (vite_stun_servers : Option Text) where
  unfoldable pub build_ice_servers : (settings : Text) → List Text
  unfolding split
  build_ice_servers settings =
      or_servers
        (urls_in trim (or_text settings (or_default vite_stun_servers default_stun_servers)))

-- `urls.join(',')`
abbrev pub join : List Text → Text
join [] = []
join (u ∷ []) = u
join (u ∷ v ∷ us) = u ++ (comma ∷ join (v ∷ us))

abbrev pub plain : Text → Bool
plain u = every (λ c. not (eqb c comma)) u

split-plain : (u : Text) → plain u ≡ true → split comma u ≡ u ∷ []
unfolding split
split-plain [] h = refl
split-plain (c ∷ s) h = rw (split-plain s (ground arith)) (ground arith)

split-append :
    (u rest : Text) → plain u ≡ true → split comma (u ++ (comma ∷ rest)) ≡ u ∷ split comma rest
unfolding split
split-append [] rest h = ground arith
split-append (c ∷ s) rest h = rw (split-append s rest (ground arith)) (ground arith)

split-join :
    (u : Text) (us : List Text) → every plain (u ∷ us) ≡ true → split comma (join (u ∷ us)) ≡ u ∷ us
split-join u [] h = split-plain u (ground arith)
split-join u (v ∷ us) h =
    rw (split-append u (join (v ∷ us)) (ground arith), split-join v us (ground arith)) refl

or_text-join :
    (u : Text) (us : List Text) (b : Text)
    → every not_empty (u ∷ us) ≡ true
    → or_text (join (u ∷ us)) b ≡ join (u ∷ us)
or_text-join [] us b h = absurd (ground arith)
or_text-join (c ∷ u) [] b h = refl
or_text-join (c ∷ u) (v ∷ us) b h = refl

keep-not_empty : (xs ys : List Text) → xs ≡ ys → every not_empty ys ≡ true → keep not_empty xs ≡ ys
keep-not_empty xs ys e h = rw e (keep-eq_self not_empty ys h)

or_servers-not_empty :
    (us : List Text)
    → every not_empty us ≡ true
    → (or_servers us ≢ []) × (every not_empty (or_servers us) ≡ true)
unfolding text
or_servers-not_empty [] h = (λ e. cc, refl)
or_servers-not_empty (u ∷ us) h = (λ e. cc, h)

module _ (trim : Text → Text) (vite_stun_servers : Option Text) where
  -- Whatever the setting and the environment say, there is a server, and none has an empty URL.
  pub ice_servers-not_empty :
      (settings : Text)
      → (build_ice_servers trim vite_stun_servers settings ≢ [])
        × (every not_empty (build_ice_servers trim vite_stun_servers settings) ≡ true)
  unfolding build_ice_servers
  ice_servers-not_empty settings =
      let raw = or_text settings (or_default vite_stun_servers default_stun_servers) in
      or_servers-not_empty (urls_in trim raw) (every-keep not_empty (map trim (split comma raw)))

  -- A setting that joins URLs by commas, which have no comma and nothing to trim and are not empty,
  -- is read back as these URLs, in their order.
  pub build_ice_servers-join :
      (u : Text) (us : List Text)
      → every plain (u ∷ us) ≡ true
      → map trim (u ∷ us) ≡ u ∷ us
      → every not_empty (u ∷ us) ≡ true
      → build_ice_servers trim vite_stun_servers (join (u ∷ us)) ≡ u ∷ us
  unfolding build_ice_servers
  build_ice_servers-join u us p t n =
      rw (or_text-join u us _ n, split-join u us p)
        (ap or_servers (keep-not_empty (map trim (u ∷ us)) (u ∷ us) t n))
