-- ===== src/Resync/Tests.antt =====
-- The search for event 4 on a chain with one deposit, whose node fails to answer at first.
use near_aurora_bridge.Base.{
  ℕ, zero, suc, ◌≡◌, refl, ◌&&◌, Option, none, some, List, [], ◌∷◌, arith, leb, if◌then◌else◌,
  Outcome, ok, slice,
}
use near_aurora_bridge.Bytes.{Log, slice_from}
use near_aurora_bridge.Bytes.Encoding.{be_bytes, words}
use near_aurora_bridge.Bytes.BigEndian.{big_endian}
use near_aurora_bridge.Events.{deposit_from_log}
use near_aurora_bridge.Oracle.{EventSignature, sent_to_cosmos}
use near_aurora_bridge.Resync.{
  Chain, search_logs, search_valsets, search_range, resync_loop, first_nonce,
  get_last_checked_block,
}
use near_aurora_bridge.Resync.Termination.{AnswersFrom, get_last_checked_block_ends}
use near_aurora_bridge.Resync.Soundness.{Answered, get_last_checked_block_sound}

abbrev deposit_log : Log
deposit_log = record {
  topics = be_bytes 32 9 ∷ be_bytes 32 5 ∷ be_bytes 32 6 ∷ be_bytes 32 7 ∷ [];
  bytes = words (1000 ∷ 4 ∷ []);
  block_number = some 995;
}

-- The deposit lies in block 995.
abbrev reply : ℕ → EventSignature → ℕ → ℕ → Option (List Log)
reply zero s from to = none
reply (suc t) sent_to_cosmos from to =
    some (if leb from 995 && leb 995 to then deposit_log ∷ [] else [])
reply (suc t) s from to = some []

abbrev chain : Chain
chain = record { latest_block = 8000; last_event_nonce = 4; logs = reply }

run : get_last_checked_block big_endian chain 4 ≡ some (ok 995)
unfolding get_last_checked_block resync_loop search_range search_logs search_valsets
    deposit_from_log slice slice_from be_bytes
run = refl

answers : AnswersFrom 1 reply
answers zero from to h = absurd (omega arith)
answers (suc t) from to h = refl

get_last_checked_block_ends_example :
    (result : Outcome ℕ) × (get_last_checked_block big_endian chain 4 ≡ some result)
get_last_checked_block_ends_example =
    get_last_checked_block_ends big_endian chain 1 4 answers (omega arith)

get_last_checked_block_sound_example : Answered big_endian (first_nonce 4) 995 reply
get_last_checked_block_sound_example = get_last_checked_block_sound big_endian chain 4 995 run
