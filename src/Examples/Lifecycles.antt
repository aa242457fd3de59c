-- ===== src/Examples/Lifecycles.antt =====
-- A session whose initialization fails, and sessions that are initialized.
use ahsir.Prelude.{[], ◌∷◌, refl, none, some, true, false, List, ◌≡◌, inl}
use ahsir.Prelude.Text.{Text, text}
use ahsir.Prelude.Table.{get}
use ahsir.Wrapper.Lifecycle.Controller.{
  init_cause, Oracle, Lifecycle, World, Turn, TurnError, provider, streamed, not_opened, turn_done,
  text_part, lifecycle, initialization_failed, open_failed, run, run_business,
}
use ahsir.Wrapper.Lifecycle.Store.{
  new_lifecycle_store, initializing, idle, session_initializing, session_initialization_failed,
  turn_outcome, initialization_failure, wants_init, session,
}
use ahsir.Wrapper.Lifecycle.Truth.{Verdict, Ends, Truthful, run_business-Truthful}
use ahsir.Wrapper.Lifecycle.Turns.{touched}
use ahsir.Wrapper.Lifecycle.Once.{run_all, initialized_once}
use ahsir.Wrapper.Lifecycle.Bounds.{SmallSession, run_all-Small}
use ahsir.Wrapper.Lifecycle.Closed.{fails_closed}

abbrev oracle : Oracle
oracle = record { clock = λ k. k; disk = λ k. true; trim = λ t. t; message = λ e. text "failed" }

abbrev strict_card : Lifecycle
strict_card = record {
  init_enabled = true;
  init_timeout = 30;
  init_degraded = false;
  finalize_enabled = true;
  work_timeout = 60;
  grace_timeout = 10;
  version = text "v1";
}

abbrev new_world : World
new_world = record { store = new_lifecycle_store true none; out = []; ticks = 0 }

abbrev good_turn : Turn
good_turn = record {
  init_id = text "i";
  turn_id = text "t";
  init = streamed (turn_done none ∷ []) false false;
  business = streamed (text_part (text "partial") ∷ []) true false;
  final = streamed (text_part (text "summary") ∷ turn_done none ∷ []) false false;
}

abbrev refused : TurnError
refused = provider false (text "no")

abbrev bad_turn : Turn
bad_turn = record good_turn { init = not_opened refused }

abbrev chat : Text
chat = text "c"

run_business-Truthful_example :
    (v : Verdict) × Ends chat new_world (run_business oracle strict_card chat good_turn new_world) v
    × Truthful true good_turn.business good_turn.final v
run_business-Truthful_example = run_business-Truthful oracle strict_card chat good_turn new_world

abbrev others : List (Text × Turn)
others = (text "d", bad_turn) ∷ (chat, bad_turn) ∷ []

initialized_once_example :
    let w = run_all oracle strict_card others (run oracle strict_card chat good_turn new_world) in
    run oracle strict_card chat bad_turn w
    ≡ run_business oracle strict_card chat bad_turn (touched chat strict_card w)
unfolding init_cause
initialized_once_example =
    initialized_once oracle strict_card chat good_turn bad_turn others new_world refl (inl refl)

fails_closed_example :
    let w' = run oracle strict_card chat bad_turn new_world in
    (w'.out
      ≡ lifecycle session_initializing (text "i") initializing none none []
        ∷ lifecycle session_initialization_failed (text "i") idle none none (text "failed")
        ∷ lifecycle turn_outcome (text "i") idle (some initialization_failure) none (text "failed")
        ∷ turn_done (some (initialization_failed (open_failed refused)))
        ∷ [])
    × (wants_init (text "v1") (session chat w'.store) ≡ true)
unfolding get new_lifecycle_store init_cause
fails_closed_example =
    fails_closed oracle strict_card chat bad_turn new_world (open_failed refused) refl refl refl
      refl

run_all-Small_example :
    SmallSession (session chat (run_all oracle strict_card others new_world).store)
run_all-Small_example = run_all-Small oracle strict_card others true chat
