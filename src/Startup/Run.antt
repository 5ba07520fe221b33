-- ===== src/Startup/Run.antt =====
-- cmd/server/main.go: run, from the configuration to its end. What the platform answers is an
-- `Outcomes`; the log lines are left out.
use linkedin_api.Base.{
  ◌⊎◌, inl, inr, Bool, Option, none, some, List, [], ◌∷◌, Text, is_some, if◌then◌else◌,
}
use linkedin_api.Domain.Errors.{Err}
use linkedin_api.Config.{Configuration}
use linkedin_api.Startup.{profile_sections}
use linkedin_api.Startup.Wiring.{build_writer}

-- `ended` is the error of the listener, or none for a signal. An error of Close is only logged.
pub record Outcomes : Type 0 where
  pub loaded : List Text ⊎ Configuration
  pub opened : Option Err
  pub ended : Option Err
  pub shutdown : Option Err

pub data Action : Type 0 where
  listens : Bool → Action
  unready : Action
  shuts_down : Action
  closes_writer : Action

pub data Exit : Type 0 where
  invalid_configuration : List Text → Exit
  failed : Err → Exit
  complete : Exit

-- The end of run once a signal has come; the Bool tells whether there is a writer.
unfoldable pub stop : Outcomes → Bool → Exit × List Action
stop o has_writer = elim o.shutdown [
  | some err ↦ (failed err, unready ∷ shuts_down ∷ [])
  | none ↦ (complete, unready ∷ shuts_down ∷ (if has_writer then closes_writer ∷ [] else []))
]

-- `listens` tells whether requests are audited in a store.
unfoldable pub run : Outcomes → Exit × List Action
unfolding profile_sections build_writer stop
run o = elim o.loaded [
  | inl problems ↦ (invalid_configuration problems, [])
  | inr c ↦ elim (profile_sections [] c.linkedin.sections) [
    | inl err ↦ (failed err, [])
    | inr sections ↦
        let has_writer = is_some (build_writer c.audit o.opened) in
        let (exit, actions) = stop o has_writer in
        elim o.ended [
          | some err ↦ (failed err, listens has_writer ∷ [])
          | none ↦ (exit, listens has_writer ∷ actions)
        ]
  ]
]
