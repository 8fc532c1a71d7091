-- ===== src/Engine/Handoff.antt =====
-- crates/librewave-engine/src/transfer.rs and meter_transfer.rs: the slot that hands one value at a time
-- from a producer to the audio thread, or back. One action is one shared access of one side. The accesses
-- are interleaved in any order; the orderings that the code gives to the atomics make them so.
pub mod History
use libre_wave.Common.{List, [], ◌∷◌, ◌++◌}

pub data SlotState : Type 0 where
  empty writing full : SlotState

-- Where the producer stands: before its exchange, between it and its write, and with a value that is
-- written and neither committed nor dropped.
pub data Producer (V : Type 0) : Type 0 where
  idle : Producer V
  reserved prepared : V → Producer V

-- Where the consumer stands: before its load, between a load that saw `full` and its copy, and between
-- the copy and its store.
pub data Consumer (V : Type 0) : Type 0 where
  idle loaded : Consumer V
  copied : V → Consumer V

-- `committed` and `taken` are the values that were published and handed on so far.
pub record Slot (V : Type 0) : Type 0 where
  pub state : SlotState
  pub value : V
  pub producer : Producer V
  pub consumer : Consumer V
  pub committed : List V
  pub taken : List V

pub data Action (V : Type 0) : Type 0 where
  reserve : V → Action V
  write commit cancel load copy release : Action V

module _ {V : Type 0} where
  unfoldable pub new : V → Slot V
  new value = record {
    state = empty;
    value = value;
    producer = Producer.idle;
    consumer = Consumer.idle;
    committed = [];
    taken = [];
  }

  -- `compare_exchange(EMPTY, WRITING)`; on failure the producer goes away with `Full`
  unfoldable pub reserve_slot : V → Producer V → Slot V → Slot V
  reserve_slot snapshot Producer.idle s = exchange s.state
    where
      exchange : SlotState → Slot V
      exchange empty = record s { state = writing; producer = reserved snapshot }
      exchange writing = s
      exchange full = s
  reserve_slot snapshot _ s = s

  unfoldable pub write_slot : Producer V → Slot V → Slot V
  write_slot (reserved snapshot) s = record s { value = snapshot; producer = prepared snapshot }
  write_slot _ s = s

  -- `PreparedControls::commit`
  unfoldable pub commit_slot : Producer V → Slot V → Slot V
  commit_slot (prepared snapshot) s = record s {
    state = full;
    producer = Producer.idle;
    committed = s.committed ++ (snapshot ∷ []);
  }
  commit_slot _ s = s

  -- `Drop for PreparedControls` without a commit
  unfoldable pub cancel_slot : Producer V → Slot V → Slot V
  cancel_slot (prepared snapshot) s = record s { state = empty; producer = Producer.idle }
  cancel_slot _ s = s

  unfoldable pub load_slot : Consumer V → Slot V → Slot V
  load_slot Consumer.idle s = seen s.state
    where
      seen : SlotState → Slot V
      seen full = record s { consumer = loaded }
      seen _ = s
  load_slot _ s = s

  -- The consumer leaves `leave value` behind.
  unfoldable pub copy_slot : (V → V) → Consumer V → Slot V → Slot V
  copy_slot leave loaded s = record s { value = leave s.value; consumer = copied s.value }
  copy_slot leave _ s = s

  unfoldable pub release_slot : Consumer V → Slot V → Slot V
  release_slot (copied snapshot) s = record s {
    state = empty;
    consumer = Consumer.idle;
    taken = s.taken ++ (snapshot ∷ []);
  }
  release_slot _ s = s

  -- An action that its side is not ready for does nothing.
  unfoldable pub act : (V → V) → Action V → Slot V → Slot V
  unfolding reserve_slot write_slot commit_slot cancel_slot load_slot copy_slot release_slot
  act leave (reserve snapshot) s = reserve_slot snapshot s.producer s
  act leave write s = write_slot s.producer s
  act leave commit s = commit_slot s.producer s
  act leave cancel s = cancel_slot s.producer s
  act leave load s = load_slot s.consumer s
  act leave copy s = copy_slot leave s.consumer s
  act leave release s = release_slot s.consumer s

  unfoldable pub run : (V → V) → List (Action V) → Slot V → Slot V
  unfolding act
  run leave [] s = s
  run leave (a ∷ rest) s = run leave rest (act leave a s)
