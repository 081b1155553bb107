-- ===== src/Protocols/PrimaryBackup.antt =====
-- crates/detersim-protocols/src/primary_backup_kv.rs: the primary and its two followers. Between two
-- receives an async function is a state of a machine, and a message is a constructor for its text.
pub mod Network
use detersim.Prelude.{
  ℕ, zero, suc, Bool, true, false, Option, none, some, List, [], ◌∷◌, ◌++◌, length, if◌then◌else◌,
  ◌==◌,
}

pub data KvBugVariant : Type 0 where
  correct ack_before_replicate read_from_stale_follower lost_update : KvBugVariant
  duplicate_request_reapplied follower_applies_uncommitted quorum_count_off_by_one : KvBugVariant

pub data KvMessage : Type 0 where
  put_7 put_9 replicate_7 replicate_9 replicate_uncommitted_7 : KvMessage
  ack ok get stop append_x read_all unknown : KvMessage
  value_is : (value : Option ℕ) → KvMessage
  index_is : (index : ℕ) → KvMessage
  entries_are : (count : ℕ) → KvMessage

-- What a node sends: to whom, and what.
abbrev pub Sends : Type 0
Sends = List (ℕ × KvMessage)

-- Where the primary stands: in its loop, in `wait_for_acks` on behalf of a client with the number of
-- acks that are missing, whether the loop ends after the reply, or at the end. The log of the
-- append-log primary holds only the entry "x", so it is known by its length.
pub data Primary : Type 0 where
  serving stopped : Primary
  awaiting : (needed_acks client : ℕ) (is_last : Bool) → Primary
  logging : (entries : ℕ) → Primary

unfoldable pub run_primary : KvBugVariant → Primary
run_primary duplicate_request_reapplied = logging 0
run_primary _ = serving

-- A put of 7.
unfoldable pub put : KvBugVariant → ℕ → Primary × Sends
put correct client = (awaiting 2 client true, (1, replicate_7) ∷ (2, replicate_7) ∷ [])
put ack_before_replicate client = (stopped, (1, replicate_7) ∷ (2, replicate_7) ∷ (client, ok) ∷ [])
put read_from_stale_follower client = (awaiting 1 client true, (2, replicate_7) ∷ [])
put lost_update client = (awaiting 1 client false, (1, replicate_7) ∷ [])
put duplicate_request_reapplied client = (serving, [])
put follower_applies_uncommitted client = (serving, (1, replicate_uncommitted_7) ∷ [])
put quorum_count_off_by_one client = (awaiting 1 client true, (2, replicate_7) ∷ [])

-- A put of 9.
unfoldable pub put_other : KvBugVariant → ℕ → Primary × Sends
put_other lost_update client = (awaiting 1 client true, (2, replicate_9) ∷ [])
put_other _ client = (serving, [])

unfoldable pub serve : KvBugVariant → ℕ → KvMessage → Primary × Sends
unfolding put put_other
serve bug client put_7 = put bug client
serve bug client put_9 = put_other bug client
serve bug client _ = (serving, [])

-- `wait_for_acks` counts acks whoever sends them, and throws other messages away.
unfoldable pub wait_for_acks : ℕ → ℕ → Bool → KvMessage → Primary × Sends
wait_for_acks (suc (suc needed)) client is_last ack = (awaiting (suc needed) client is_last, [])
wait_for_acks (suc zero) client is_last ack =
    (if is_last then stopped else serving, (client, ok) ∷ [])
wait_for_acks needed client is_last _ = (awaiting needed client is_last, [])

unfoldable pub run_append_log_primary : KvBugVariant → ℕ → ℕ → KvMessage → Primary × Sends
run_append_log_primary duplicate_request_reapplied entries client append_x =
    (logging (suc (suc entries)), (client, index_is entries) ∷ [])
run_append_log_primary bug entries client append_x =
    (logging (suc entries), (client, index_is entries) ∷ [])
run_append_log_primary bug entries client read_all = (stopped, (client, entries_are entries) ∷ [])
run_append_log_primary bug entries client _ = (logging entries, [])

unfoldable pub primary_receive : KvBugVariant → Primary → ℕ → KvMessage → Primary × Sends
unfolding serve wait_for_acks run_append_log_primary
primary_receive bug serving from msg = serve bug from msg
primary_receive bug stopped from msg = (stopped, [])
primary_receive bug (awaiting needed client is_last) from msg =
    wait_for_acks needed client is_last msg
primary_receive bug (logging entries) from msg = run_append_log_primary bug entries from msg

pub record Follower : Type 0 where
  pub value : Option ℕ
  pub is_running : Bool

abbrev pub new_follower : Follower
new_follower = record { value = none; is_running = true }

unfoldable pub handle : Follower → ℕ → KvMessage → Follower × Sends
handle f from replicate_7 = (record f { value = some 7 }, (from, ack) ∷ [])
handle f from replicate_9 = (record f { value = some 9 }, (from, ack) ∷ [])
handle f from replicate_uncommitted_7 = (record f { value = some 7 }, [])
handle f from get = (record f { is_running = false }, (from, value_is f.value) ∷ [])
handle f from stop = (record f { is_running = false }, [])
handle f from _ = (f, [])

unfoldable pub run_follower : Follower → ℕ → KvMessage → Follower × Sends
unfolding handle
run_follower f from msg = if f.is_running then handle f from msg else (f, [])
