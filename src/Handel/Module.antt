-- ===== src/Handel/Module.antt =====
-- overhead/handel/handel.go: the sessions by the hash of their block, and the events that reach them.
--
-- What a session records for the event loop and the network is in the session; an ended session is
-- forgotten with it.
use optilog_artifacts.Prelude.{ℕ, Bool, true, false, Option, none, some, List, ◌∷◌, if◌then◌else◌}
use optilog_artifacts.Prelude.Integers.{pos}
use optilog_artifacts.Prelude.Dict.{Dict, lookup, insert, delete}
use optilog_artifacts.Types.{QuorumSignature, PartialCert}
use optilog_artifacts.Chain.{Chain}
use optilog_artifacts.Handel.Session.{Config, Contribution, Session}
use optilog_artifacts.Handel.Session.Calls.{Call, contributes, call, new_session}

-- Contributions wait for a proposal, and votes for the initialization, in the event loop.
pub record Handel : Type 0 where
  pub sessions : Dict Session
  pub init_done : Bool
  pub delayed : List Contribution
  pub waiting : List PartialCert
  pub chain : Chain

abbrev pub with_session : ℕ → Session × Chain → Handel → Handel
with_session hash (s, chain) h = record h { sessions = insert hash s h.sessions; chain = chain }

module _ (config : Config) where
  abbrev pub at_session : Option Session → ℕ → Call config → Handel → Handel
  at_session none hash x h = h
  at_session (some s) hash x h = with_session hash (call config x (s, h.chain)) h

  -- The handlers of the ticks, and a round of the goroutine of the session.
  unfoldable pub on_call : ℕ → Call config → Handel → Handel
  unfolding call
  on_call hash x h = at_session (lookup hash h.sessions) hash x h

  -- Without a session the contribution waits once for a proposal.
  abbrev pub defer : Contribution → Handel → Handel
  defer c h =
      if c.deferred then h else record h { delayed = record c { deferred = true } ∷ h.delayed }

  abbrev pub or_deferred : Option Session → Contribution → Handel → Handel
  or_deferred none c h = defer c h
  or_deferred (some s) c h = on_call c.hash (contributes c) h

  unfoldable pub on_contribution : Contribution → Handel → Handel
  unfolding on_call
  on_contribution c h = or_deferred (lookup c.hash h.sessions) c h

  unfoldable pub on_session_done : ℕ → Handel → Handel
  on_session_done hash h = record h { sessions = delete hash h.sessions }

  -- What the service makes of a message, whose signatures are nil where they do not decode.
  abbrev pub contribution_of :
      ℕ → ℕ → ℕ → Option QuorumSignature → Option QuorumSignature → Option Contribution
  contribution_of hash sender level none individual = none
  contribution_of hash sender level (some sig) none = none
  contribution_of hash sender level (some sig) (some indiv) = some (record {
    hash = hash;
    sender = sender;
    level = level;
    signature = sig;
    individual = indiv;
    verified = false;
    deferred = false;
    score = pos 0;
  })

  -- `ids` are the shuffled IDs for the hash, and `shuffled` the numbers of its levels.
  unfoldable pub begin : (ℕ → List ℕ) → List ℕ → PartialCert → Handel → Handel
  unfolding new_session
  begin shuffled ids pc h =
      if h.init_done
      then record h {
        sessions =
            insert pc.block_hash (new_session config shuffled ids pc.block_hash pc.signature)
              h.sessions;
      }
      else record h { waiting = pc ∷ h.waiting }
