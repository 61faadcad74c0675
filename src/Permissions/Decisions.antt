-- ===== src/Permissions/Decisions.antt =====
-- What the two decisions of permissions.rs and capability/permissions.rs mean.
use mathlib.Core.List.{Memᴰ}
use kunkka.Base.{
  String, ◌≡◌, refl, ◌↔◌, ◌⊎◌, inl, inr, true, false, List, [], ◌∷◌, arith, All, contains,
  contains_iff, Bool-cases,
}
use kunkka.Manifest.{AppManifest, ShellCapabilityConfig}
use kunkka.Permissions.{
  PermissionDecision, decide_frontend_dispatch, ShellPolicyDecision, decide_commands,
}

-- A frontend may call a method exactly when the manifest names it.
decide_frontend_dispatch-eq-allow_iff :
    (manifest : AppManifest) (method : String)
    → (decide_frontend_dispatch manifest method ≡ PermissionDecision.allow)
      ↔ Memᴰ method manifest.permissions.frontend_dispatch.allowed_methods
unfolding decide_frontend_dispatch
decide_frontend_dispatch-eq-allow_iff manifest method =
    let found = contains_iff manifest.permissions.frontend_dispatch.allowed_methods method in
    (λ h. found.0 (ground arith), λ m. ground (arith, found.1 m))

abbrev Listed : List String → String → Type 0
Listed xs command = contains xs command ≡ true

abbrev Unlisted : List String → String → Type 0
Unlisted xs command = contains xs command ≡ false

-- What each answer says of the commands: all are in `allow`; all are in `allow` or `ask` and one is
-- not in `allow`; one is in neither list.
abbrev pub Decides : ShellCapabilityConfig → List String → ShellPolicyDecision → Type 0
Decides config commands ShellPolicyDecision.allow = All (Listed config.allow) commands
Decides config commands ShellPolicyDecision.ask =
    All (λ command. Listed config.allow command ⊎ Listed config.ask command) commands
    × ((command : String) × Memᴰ command commands × Unlisted config.allow command)
Decides config commands ShellPolicyDecision.deny =
    (command : String) × Memᴰ command commands
    × Unlisted config.allow command
    × Unlisted config.ask command

-- What the rest of the loop answers once a command that asks was met.
abbrev DecidesAsking : ShellCapabilityConfig → List String → ShellPolicyDecision → Type 0
DecidesAsking config commands ShellPolicyDecision.allow = ⊥
DecidesAsking config commands ShellPolicyDecision.ask =
    All (λ command. Listed config.allow command ⊎ Listed config.ask command) commands
DecidesAsking config commands ShellPolicyDecision.deny =
    Decides config commands ShellPolicyDecision.deny

asking_skip :
    (config : ShellCapabilityConfig) (x : String) (xs : List String) (d : ShellPolicyDecision)
    → Listed config.allow x ⊎ Listed config.ask x
    → DecidesAsking config xs d
    → DecidesAsking config (x ∷ xs) d
asking_skip config x xs ShellPolicyDecision.allow l h = h
asking_skip config x xs ShellPolicyDecision.ask l h = (l, h)
asking_skip config x xs ShellPolicyDecision.deny l (c, m, u, v) = (c, Memᴰ.tail m, u, v)

decide_commands_asking :
    (config : ShellCapabilityConfig) (xs : List String)
    → DecidesAsking config xs (decide_commands config true xs)
unfolding decide_commands
decide_commands_asking config [] = tt
decide_commands_asking config (x ∷ xs) = elim (Bool-cases (contains config.allow x)) [
  | inl yes_allow ↦
      rw (yes_allow, decide_commands)
        (asking_skip config x xs _ (inl yes_allow) (decide_commands_asking config xs))
  | inr no_allow ↦ elim (Bool-cases (contains config.ask x)) [
    | inl yes_ask ↦
        rw (no_allow, yes_ask, decide_commands)
          (asking_skip config x xs _ (inr yes_ask) (decide_commands_asking config xs))
    | inr no_ask ↦ rw (no_allow, no_ask, decide_commands) ((x, Memᴰ.head refl, no_allow, no_ask))
  ]
]

allow_skip :
    (config : ShellCapabilityConfig) (x : String) (xs : List String) (d : ShellPolicyDecision)
    → Listed config.allow x
    → Decides config xs d
    → Decides config (x ∷ xs) d
allow_skip config x xs ShellPolicyDecision.allow l h = (l, h)
allow_skip config x xs ShellPolicyDecision.ask l (h, (c, m, u)) = ((inl l, h), (c, Memᴰ.tail m, u))
allow_skip config x xs ShellPolicyDecision.deny l (c, m, u, v) = (c, Memᴰ.tail m, u, v)

ask_skip :
    (config : ShellCapabilityConfig) (x : String) (xs : List String) (d : ShellPolicyDecision)
    → Unlisted config.allow x
    → Listed config.ask x
    → DecidesAsking config xs d
    → Decides config (x ∷ xs) d
ask_skip config x xs ShellPolicyDecision.allow u l h = absurd h
ask_skip config x xs ShellPolicyDecision.ask u l h = ((inr l, h), (x, Memᴰ.head refl, u))
ask_skip config x xs ShellPolicyDecision.deny u l (c, m, v, w) = (c, Memᴰ.tail m, v, w)

-- The answer of the loop over the commands is the one that the two lists call for.
pub decide_commands-Decides :
    (config : ShellCapabilityConfig) (commands : List String)
    → Decides config commands (decide_commands config false commands)
unfolding decide_commands
decide_commands-Decides config [] = tt
decide_commands-Decides config (x ∷ xs) = elim (Bool-cases (contains config.allow x)) [
  | inl yes_allow ↦
      rw (yes_allow, decide_commands)
        (allow_skip config x xs _ yes_allow (decide_commands-Decides config xs))
  | inr no_allow ↦ elim (Bool-cases (contains config.ask x)) [
    | inl yes_ask ↦
        rw (no_allow, yes_ask, decide_commands)
          (ask_skip config x xs _ no_allow yes_ask (decide_commands_asking config xs))
    | inr no_ask ↦ rw (no_allow, no_ask, decide_commands) ((x, Memᴰ.head refl, no_allow, no_ask))
  ]
]

-- Where every command stands in `allow`, the answer is to allow.
pub decide_commands-eq-allow :
    (config : ShellCapabilityConfig) (commands : List String)
    → All (λ command. contains config.allow command ≡ true) commands
    → decide_commands config false commands ≡ ShellPolicyDecision.allow
unfolding decide_commands
decide_commands-eq-allow config [] h = refl
decide_commands-eq-allow config (x ∷ xs) (l, h) =
    rw (l, decide_commands) (decide_commands-eq-allow config xs h)
