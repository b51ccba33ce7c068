-- ===== src/Inbound/Keys.antt =====
-- src/daemon.rs: which key `resolve_inbound_peer_key` chooses.
use tassh.Strings.{before_first}
use tassh.Strings.Split.{Lacks, before_first-append}
use tassh.Ssh.{normalize_peer_hostname}
use tassh.Peer.Listing.{has_text}
use tassh.Inbound.{find_first, is_variant, resolve_inbound_peer_key}
use tassh.Prelude.{
  Text, Bool, List, ◌≡◌, All, true, false, some, ◌++◌, ◌⊎◌, Bool-cases, none, text_eq, inl, inr, ap,
  arith, sym, text_eq_refl, text_eq_iff, ◌∙◌, [], refl, ◌∷◌,
}

-- A host of the list passes the test and is what the loop returns, or none passes.
pub find_first-cases :
    (p : Text → Bool) (hosts : List Text)
    → ((host : Text) × (has_text hosts host ≡ true)
        × (p host ≡ true)
        × (find_first p hosts ≡ some host))
      ⊎ (All (λ host. p host ≡ false) hosts × (find_first p hosts ≡ none))
unfolding find_first
find_first-cases p [] = inr (tt, refl)
find_first-cases p (host ∷ hosts) = elim (Bool-cases (p host)) [
  | inl e ↦ inl (host, ground (arith, text_eq_refl host), e, rw e)
  | inr e ↦ elim (find_first-cases p hosts) [
    | inl (h, has, passes, f) ↦ inl (h, ground arith, passes, rw e f)
    | inr (none_passes, f) ↦ inr ((e, none_passes), rw e f)
  ]
]

pub none_passes-has_text :
    (p : Text → Bool) (hosts : List Text) (host : Text)
    → All (λ h. p h ≡ false) hosts
    → has_text hosts host ≡ true
    → p host ≡ false
none_passes-has_text p [] host h e = cc
none_passes-has_text p (x ∷ hosts) host (hx, h) e = elim (Bool-cases (text_eq x host)) [
  | inl same ↦ ap p (sym ((text_eq_iff x host).0 same)) ∙ hx
  | inr other ↦ none_passes-has_text p hosts host h (ground arith)
]

-- When reverse DNS names the peer, and the registry knows a variant of that name, the connection gets
-- no new key: its key is a known host that resolves to the address, or a known variant of the name.
pub known_variant_reused :
    (resolves_to_ip : Text → Bool) (raw peer_ip host : Text) (listed relisted : List Text)
    → has_text relisted host ≡ true
    → is_variant (normalize_peer_hostname raw) host ≡ true
    → let key = resolve_inbound_peer_key resolves_to_ip (some raw) peer_ip listed relisted in
      ((has_text listed key ≡ true) × (resolves_to_ip key ≡ true))
      ⊎ ((has_text relisted key ≡ true) × (is_variant (normalize_peer_hostname raw) key ≡ true))
unfolding resolve_inbound_peer_key
known_variant_reused resolves_to_ip raw peer_ip host listed relisted known variant =
    elim (find_first-cases resolves_to_ip listed) [
      | inl (key, has, passes, f) ↦
          inl (rw (resolve_inbound_peer_key, f) has, rw (resolve_inbound_peer_key, f) passes)
      | inr (_, f) ↦ elim (find_first-cases (is_variant (normalize_peer_hostname raw)) relisted) [
        | inl (key, has, passes, g) ↦
            inr
              (rw (resolve_inbound_peer_key, f, g) has, rw (resolve_inbound_peer_key, f, g) passes)
        | inr (none_pass, g) ↦
            absurd (ground (arith, none_passes-has_text _ relisted host none_pass known))
      ]
    ]

find_first-none :
    (p : Text → Bool) (hosts : List Text) → All (λ h. p h ≡ false) hosts → find_first p hosts ≡ none
unfolding find_first
find_first-none p [] h = refl
find_first-none p (x ∷ hosts) (hx, h) = rw hx (find_first-none p hosts h)

same_label-is_variant :
    (known normalized label domain other : Text)
    → Lacks b'.' label
    → normalized ≡ label ++ b'.' ∷ domain
    → normalize_peer_hostname known ≡ label ++ b'.' ∷ other
    → is_variant normalized known ≡ true
unfolding is_variant
same_label-is_variant known normalized label domain other dot r k =
    let a = ap (before_first b'.') r ∙ before_first-append b'.' label domain dot in
    let b = ap (before_first b'.') k ∙ before_first-append b'.' label other dot in
    ground (arith, a, b, text_eq_refl label)

-- Two names with the same first label are taken for the same host, in whatever domains they are: when
-- no known host resolves to the address, a peer named `label.domain` gets the key of the first known
-- host, if that is `label.other`.
same_label_same_key :
    (resolves_to_ip : Text → Bool) (raw peer_ip known label domain other : Text)
    (listed rest : List Text)
    → All (λ h. resolves_to_ip h ≡ false) listed
    → Lacks b'.' label
    → normalize_peer_hostname raw ≡ label ++ b'.' ∷ domain
    → normalize_peer_hostname known ≡ label ++ b'.' ∷ other
    → resolve_inbound_peer_key resolves_to_ip (some raw) peer_ip listed (known ∷ rest) ≡ known
unfolding resolve_inbound_peer_key find_first is_variant
same_label_same_key resolves_to_ip raw peer_ip known label domain other listed rest unresolved dot r
      k =
    let v = same_label-is_variant known (normalize_peer_hostname raw) label domain other dot r k in
    rw (resolve_inbound_peer_key, find_first-none resolves_to_ip listed unresolved, v) refl
