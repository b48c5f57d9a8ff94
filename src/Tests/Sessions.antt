-- ===== src/Tests/Sessions.antt =====
-- A session of two replicas, which aggregates their votes for a block.
use optilog_artifacts.Prelude.{
  ℕ, ◌≡◌, refl, true, false, some, List, [], ◌∷◌, inl, inr, In, subst, sym,
}
use optilog_artifacts.Prelude.Integers.{pos}
use optilog_artifacts.Chain.{Chain}
use optilog_artifacts.Handel.Session.{
  Config, Session, Contribution, add_contribution, new_view, session_done, level_at, can_merge,
  has_common, increase, decrease, valid_level, new_level, verification_priority,
  contribution_priority, contribution_priority_from, assign_priority,
}
use optilog_artifacts.Handel.Session.Score.{
  score, need_of, score_of, total_of, add_senders, add_all,
}
use optilog_artifacts.Handel.Session.Pending.{
  insert_pending, insert_sorted, search, search_from, insert_at,
}
use optilog_artifacts.Handel.Session.Choose.{
  choose_contribution, choices_from, choose_from_level, choose_rated, best_from, keep_others, pick,
  best_choice, put_back_others, put_back,
}
use optilog_artifacts.Handel.Session.Outgoing.{
  is_level_complete, are_in, update_outgoing, bubble, passed_on, finish, advance_level,
  send_fast_path, send_times, send_contribution_to_level, send_part, least_from, send_contributions,
  send_from,
}
use optilog_artifacts.Handel.Session.Verify.{
  verify_next, improve_signature, merge_all, merge, verify_contribution, conclude,
}
use optilog_artifacts.Handel.Partitioner.{
  new_partitioner, index_from, partition, size, range_level, max_level, log_from, narrow, own_half,
  other_half, slice,
}
use optilog_artifacts.Prelude.Dict.{lookup, insert}
use optilog_artifacts.Chain.{get, store, store_all}
use optilog_artifacts.Types.IdSet.{contains, add, len, new_id_set}
use optilog_artifacts.Handel.Session.Calls.{
  Call, contributes, verifies, disseminates, activates, new_session, run, call, handle_contribution,
  update_incoming, add_individual, improve, complete, levels_from,
}
use optilog_artifacts.Handel.Session.Sound.{IsSound}
use optilog_artifacts.Handel.Session.Histories.{session-IsSound}
use optilog_artifacts.Tests.World.{
  world, world-IsHashed, network, network-IsFaithful, chain, chain-IsKnown, base, sig_of, block_of,
}

abbrev two : Config
two = record {
  base = base;
  fetch = network;
  id = 1;
  quorum = λ v. 2;
  replicas = 2;
  has_node = λ id. true;
  max_level = 1;
  view = 2;
}

abbrev ids : List ℕ
ids = 1 ∷ 2 ∷ []

abbrev shuffled : ℕ → List ℕ
shuffled level = 0 ∷ []

abbrev from_two : Contribution
from_two = record {
  hash = 12;
  sender = 2;
  level = 1;
  signature = sig_of (2 ∷ []);
  individual = sig_of (2 ∷ []);
  verified = false;
  deferred = false;
  score = pos 0;
}

abbrev calls : List (Call two)
calls =
    contributes from_two
    ∷ activates
    ∷ verifies
    ∷ contributes (record from_two { verified = true })
    ∷ disseminates
    ∷ []

abbrev begun : Session × Chain
begun = (new_session two shuffled ids 12 (sig_of (1 ∷ [])), chain)

-- The verified contribution comes back by the event loop.
announced :
    (call two verifies (call two activates (call two (contributes from_two) begun))).0.out
    ≡ add_contribution (record from_two { verified = true }) ∷ []
unfolding run call handle_contribution insert_pending insert_sorted search search_from insert_at
    update_incoming add_individual improve complete is_level_complete are_in update_outgoing bubble
    passed_on finish advance_level send_fast_path send_times send_contribution_to_level send_part
    least_from send_contributions send_from verify_next choose_contribution choices_from
    choose_from_level choose_rated best_from keep_others pick best_choice put_back_others put_back
    improve_signature merge_all merge can_merge has_common verify_contribution conclude increase
    decrease score need_of score_of total_of add_senders add_all valid_level new_session levels_from
    new_level verification_priority contribution_priority contribution_priority_from assign_priority
    new_partitioner index_from partition size range_level max_level log_from narrow own_half
    other_half slice get lookup insert store store_all contains add len new_id_set
announced = refl

certified :
    (run two calls begun).0.out
    ≡ session_done 12
      ∷ new_view (record {
        signature = some (sig_of (2 ∷ 1 ∷ []));
        view = 2;
        hash = 12;
        latency_vector = [];
      })
      ∷ add_contribution (record from_two { verified = true })
      ∷ []
unfolding run call handle_contribution insert_pending insert_sorted search search_from insert_at
    update_incoming add_individual improve complete is_level_complete are_in update_outgoing bubble
    passed_on finish advance_level send_fast_path send_times send_contribution_to_level send_part
    least_from send_contributions send_from verify_next choose_contribution choices_from
    choose_from_level choose_rated best_from keep_others pick best_choice put_back_others put_back
    improve_signature merge_all merge can_merge has_common verify_contribution conclude increase
    decrease score need_of score_of total_of add_senders add_all valid_level new_session levels_from
    new_level verification_priority contribution_priority contribution_priority_from assign_priority
    new_partitioner index_from partition size range_level max_level log_from narrow own_half
    other_half slice get lookup insert store store_all contains add len new_id_set
certified = refl

session-IsSound_example :
    IsSound two world 12
      (run two calls (new_session two shuffled ids 12 (sig_of (1 ∷ [])), chain)).0
session-IsSound_example =
    session-IsSound two world 12 world-IsHashed network-IsFaithful shuffled ids (sig_of (1 ∷ []))
      (block_of 2) chain calls refl refl chain-IsKnown
      (
        inl refl,
        (
          tt,
          (
            tt,
            (
              inr (
                  subst (In (add_contribution (record from_two { verified = true })))
                    (sym announced) (inl refl)),
              (tt, tt),
            ),
          ),
        ),
      )

-- With two choices, the one that is not taken goes from level 2 to level 1, its index among them.
abbrev four : Config
four = record {
  base = base;
  fetch = network;
  id = 1;
  quorum = λ v. 3;
  replicas = 4;
  has_node = λ id. true;
  max_level = 2;
  view = 2;
}

abbrev from_three : Contribution
from_three = record {
  hash = 12;
  sender = 3;
  level = 2;
  signature = sig_of (3 ∷ []);
  individual = sig_of (3 ∷ []);
  verified = false;
  deferred = false;
  score = pos 0;
}

abbrev asked : List (Call four)
asked = contributes from_two ∷ contributes from_three ∷ activates ∷ activates ∷ []

senders_of : List Contribution → List ℕ
senders_of [] = []
senders_of (c ∷ cs) = c.sender ∷ senders_of cs

abbrev chosen_of : Session
chosen_of =
    (choose_contribution four
      (run four asked (
        new_session four (λ level. 0 ∷ 1 ∷ 2 ∷ []) (1 ∷ 2 ∷ 3 ∷ 4 ∷ []) 12 (sig_of (1 ∷ [])),
        chain,
      )).0).1

misplaced :
    (senders_of (level_at 1 chosen_of).pending ≡ 3 ∷ [])
    × (senders_of (level_at 2 chosen_of).pending ≡ [])
unfolding senders_of run call handle_contribution insert_pending insert_sorted search search_from
    insert_at update_incoming add_individual improve complete is_level_complete are_in
    update_outgoing bubble passed_on finish advance_level send_fast_path send_times
    send_contribution_to_level send_part least_from send_contributions send_from verify_next
    choose_contribution choices_from choose_from_level choose_rated best_from keep_others pick
    best_choice put_back_others put_back improve_signature merge_all merge can_merge has_common
    verify_contribution conclude increase decrease score need_of score_of total_of add_senders
    add_all valid_level new_session levels_from new_level verification_priority
    contribution_priority contribution_priority_from assign_priority new_partitioner index_from
    partition size range_level max_level log_from narrow own_half other_half slice get lookup insert
    store store_all contains add len new_id_set
misplaced = (refl, refl)
