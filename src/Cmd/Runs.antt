-- ===== src/Cmd/Runs.antt =====
-- Whole runs of the interface do not panic.
use pldm_lib.Base.{◌≡◌, refl, List, [], ◌∷◌, Bool, true, false, ◌||◌, ok, err, panic, All}
use pldm_lib.Fd.Ops.{Target}
use pldm_lib.Control.{ProtocolCapability}
use pldm_lib.Fd.Handler.{Answer}
use pldm_lib.Cmd.{
  CmdInterface, new_cmd_interface, process_request, generate_initiator_request,
  process_initiator_response,
}
use pldm_lib.Cmd.Platform.{IsPlatform, IsTable, IsReady, Readies, MessageFits}
use pldm_lib.Cmd.Ready.{
  new_cmd_interface-IsReady, process_request-Readies, generate-Readies, response-Readies,
}
use pldm_lib.Cmd.Run.{Event, request, response, progress, step, run}

abbrev pub panicked : {A : Type 0} → Answer A → Bool
panicked panic = true
panicked _ = false

module _ {W : Type 0} (t : Target W) where
  -- The requests are not empty, and those for an UpdateComponent announce an image that fits.
  abbrev pub EventFits : Event → Type 0
  EventFits (request msg) = MessageFits t.order msg
  EventFits _ = Unit

  abbrev pub panics : Event → CmdInterface W → Bool
  panics (request msg) s = panicked (process_request t s msg).0
  panics (response msg) s = panicked (process_initiator_response t s msg).0
  panics (progress msg) s = panicked (generate_initiator_request t s msg).0

  -- Some call of the run panics.
  abbrev pub run_panics : List Event → CmdInterface W → Bool
  run_panics [] s = false
  run_panics (e ∷ es) s = panics e s || run_panics es (step t e s)

  answered :
      {A B : Type 0} (r : Answer A × CmdInterface W × B)
      → Readies r
      → (panicked r.0 ≡ false) × IsReady r.1
  answered (ok a, s, x) h = (refl, h)
  answered (err e, s, x) h = (refl, h)
  answered (panic, s, x) h = absurd h

  step-IsReady :
      IsPlatform t
      → (e : Event) (s : CmdInterface W) → IsReady s
      → EventFits e
      → (panics e s ≡ false) × IsReady (step t e s)
  step-IsReady p (request msg) s h f =
      answered (process_request t s msg) (process_request-Readies t p s msg h f)
  step-IsReady p (response msg) s h f =
      let (r, s') = process_initiator_response t s msg in
      answered (r, s', tt) (response-Readies t p s msg h)
  step-IsReady p (progress msg) s h f =
      answered (generate_initiator_request t s msg) (generate-Readies t p s msg h)

  -- No run of an interface that is ready panics, and it is ready after the run, for any sequence of
  -- requests, answers and calls for the device's own requests. The platform keeps to `IsPlatform`,
  -- no request is empty, and those for an UpdateComponent announce an image that ends, with its
  -- padding, below 2 ^ 32.
  run-IsReady :
      IsPlatform t
      → (es : List Event) (s : CmdInterface W) → IsReady s
      → All EventFits es
      → (run_panics es s ≡ false) × IsReady (run t es s)
  run-IsReady p [] s h f = (refl, h)
  run-IsReady p (e ∷ es) s h f =
      let (quiet, next) = step-IsReady p e s h f.0 in
      let (rest, last) = run-IsReady p es (step t e s) next f.1 in (rw quiet rest, last)

  -- No run of a new interface panics, over any sequence of requests, answers and calls for the
  -- device's own requests, and at its end the device's state is valid and no request is open.
  -- The platform keeps to `IsPlatform`, the capability table has the types Base and FwUpdate
  -- only and commands that are bytes, no request is empty, and those for an UpdateComponent
  -- announce an image that ends, with its padding, below 2 ^ 32.
  pub run-new :
      IsPlatform t
      → (caps : List ProtocolCapability) (w : W) (es : List Event) → IsTable caps
      → All EventFits es
      → (run_panics es (new_cmd_interface caps w) ≡ false)
        × IsReady (run t es (new_cmd_interface caps w))
  run-new p caps w es h f =
      run-IsReady p es (new_cmd_interface caps w) (new_cmd_interface-IsReady caps w h) f
