-- ===== src/Protocols/PrimaryBackup/Network.antt =====
-- The three nodes on a network that delivers messages in any order and may lose them, while clients,
-- which are the other nodes, send requests at any time.
pub mod Balance
pub mod Receives
pub mod Quorum
use detersim.Prelude.{
  ℕ, suc, ◌≤◌, ◌≡◌, Bool, true, false, Option, none, some, List, [], ◌∷◌, ◌++◌, map, length,
  get_elem?, remove_at, if◌then◌else◌, ◌==◌,
}
use detersim.Protocols.PrimaryBackup.{
  KvBugVariant, KvMessage, Sends, Primary, Follower, new_follower, run_primary, primary_receive,
  run_follower, put_7, put_9, get, stop, append_x, read_all, unknown,
}

pub record Packet : Type 0 where
  pub from : ℕ
  pub to : ℕ
  pub msg : KvMessage

pub record State : Type 0 where
  pub primary : Primary
  pub first : Follower
  pub second : Follower
  pub net : List Packet

abbrev pub start : KvBugVariant → State
start bug = record {
  primary = run_primary bug;
  first = new_follower;
  second = new_follower;
  net = [];
}

abbrev pub sent_by : ℕ → Sends → List Packet
sent_by from sends = map (λ s. record { from = from; to = s.0; msg = s.1 }) sends

-- A node receives a message: `run_primary_backup_kv` at nodes 0, 1 and 2.
unfoldable pub receive : KvBugVariant → Packet → State → State
receive bug p s =
    let (primary, sends) = primary_receive bug s.primary p.from p.msg in
    let (first, sends1) = run_follower s.first p.from p.msg in
    let (second, sends2) = run_follower s.second p.from p.msg in
    if p.to == 0
    then record s { primary = primary; net = s.net ++ sent_by 0 sends }
    else if p.to == 1
    then record s { first = first; net = s.net ++ sent_by 1 sends1 }
    else if p.to == 2
    then record s { second = second; net = s.net ++ sent_by 2 sends2 }
    else s

-- What a client may send.
abbrev pub is_request : KvMessage → Bool
is_request put_7 = true
is_request put_9 = true
is_request get = true
is_request stop = true
is_request append_x = true
is_request read_all = true
is_request unknown = true
is_request _ = false

pub data Step (bug : KvBugVariant) : State → State → Type 0 where
  deliver :
      (s : State) (i : ℕ) (p : Packet)
      → get_elem? s.net i ≡ some p
      → Step bug s (receive bug p (record s { net = remove_at i s.net }))
  lose :
      (s : State) (i : ℕ) (p : Packet)
      → get_elem? s.net i ≡ some p
      → Step bug s (record s { net = remove_at i s.net })
  request :
      (s : State) (p : Packet)
      → 3 ≤ p.from
      → is_request p.msg ≡ true
      → Step bug s (record s { net = p ∷ s.net })

pub data Reachable (bug : KvBugVariant) : State → Type 0 where
  begin : Reachable bug (start bug)
  after : {s t : State} → Reachable bug s → Step bug s t → Reachable bug t
