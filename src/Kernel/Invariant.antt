-- ===== src/Kernel/Invariant.antt =====
-- What every call of the kernel keeps: nothing is loaded or up while the runtime is down, and a loaded
-- process belongs to an application that is up and registered.
pub mod Stopping
pub mod Starting
use pegasus_suite.Prelude.{String, ◌≡◌, sym, ◌∙◌, Bool, true, false, Option, some, List, [], arith}
use pegasus_suite.Prelude.Assoc.{Assoc, lookup, string_eq, none_in_nil}
use pegasus_suite.Clients.{ProcessKey, key_eq, Store}
use pegasus_suite.Kernel.Host.{Host}
use pegasus_suite.Kernel.State.{Kernel, registered}
use pegasus_suite.Kernel.Steps.{Step}

module _ {st : Store} {h : Host} where
  pub record IsConsistent (k : Kernel st h) : Type 0 where
    pub down_procs : k.running ≡ false → k.procs ≡ []
    pub down_up : k.running ≡ false → k.up ≡ []
    pub loaded_up :
        (key : ProcessKey) (p : h.P) → lookup key k.procs ≡ some p → lookup key.app k.up ≡ some true
    pub up_registered :
        (name : String) (b : Bool)
        → lookup name k.up ≡ some b
        → (registered name k.apps ≡ true) × (b ≡ true)

  pub Step-IsConsistent : (k k' : Kernel st h) → Step k k' → IsConsistent k → IsConsistent k'
  Step-IsConsistent k k' f c = record {
    down_procs = λ e. f.idle (sym f.running ∙ e) (c.down_procs (sym f.running ∙ e));
    down_up = λ e. f.up ∙ c.down_up (sym f.running ∙ e);
    loaded_up = λ key p e. rw f.up (ground (arith, f.adds key p e, c.loaded_up key p));
    up_registered = λ name b e. rw f.apps (c.up_registered name b (rw (f.up) at e));
  }

  -- the runtime is down, with nothing loaded and nothing up
  pub record IsDown (apps : List String) (k : Kernel st h) : Type 0 where
    pub running : k.running ≡ false
    pub procs : k.procs ≡ []
    pub up : k.up ≡ []
    pub known : k.apps ≡ apps

  pub IsConsistent-of-IsDown :
      (apps : List String) (k : Kernel st h) → IsDown apps k → IsConsistent k
  IsConsistent-of-IsDown apps k d = record {
    down_procs = λ e. d.procs;
    down_up = λ e. d.up;
    loaded_up = λ key p e. absurd (none_in_nil key p (rw (d.procs) at e));
    up_registered = λ name b e. absurd (none_in_nil name b (rw (d.up) at e));
  }
