-- ===== src/Zip/State.antt =====
-- src/chunker/zip/walker/state.rs and events.rs: the states of the walker, and what it reports.
use async_chunker.Prelude.{ℕ, Bool, Option, none, List, [], if◌then◌else◌, Bytes}
use async_chunker.Zip.Headers.{LocalHeader, CentralHeader, Zip64EndRecord}
use async_chunker.Zip.Numbers.{W, MemberSizes, u32_at, u64_at}
use async_chunker.Result.{ok}

pub data Phase : Type 0 where
  members central zip64_end_seen locator_seen complete : Phase

pub data Record : Type 0 where
  local_record central_record end_record zip64_end_record zip64_locator_record : Record

pub data Variable : Type 0 where
  local_variable : LocalHeader → Variable
  central_variable : CentralHeader → Variable

pub record DescriptorShape : Type 0 where
  pub zip64 : Bool

abbrev pub body_len : DescriptorShape → ℕ
body_len shape = if shape.zip64 then 20 else 12

abbrev pub crc : Bytes → ℕ
crc body = u32_at body 0

abbrev pub compressed : DescriptorShape → Bytes → ℕ
compressed shape body = if shape.zip64 then u64_at body 4 else u32_at body 4

abbrev pub uncompressed : DescriptorShape → Bytes → ℕ
uncompressed shape body = if shape.zip64 then u64_at body 12 else u32_at body 8

-- The lengths of the fixed parts.
abbrev pub fixed_len : Record → ℕ
fixed_len local_record = 26
fixed_len central_record = 42
fixed_len end_record = 18
fixed_len zip64_end_record = 52
fixed_len zip64_locator_record = 16

abbrev pub fixed_max : ℕ
fixed_max = 52

-- `State::Data`
pub record DataState : Type 0 where
  pub remaining : ℕ
  pub total : ℕ
  pub uncompressed : ℕ
  pub crc : ℕ
  pub method : ℕ
  pub descriptor : Option DescriptorShape

-- `State::DataScan`
pub record ScanState : Type 0 where
  pub consumed : ℕ
  pub method : ℕ
  pub zip64 : Bool
  pub pending : ℕ

-- `State::Descriptor`
pub record DescriptorState : Type 0 where
  pub shape : DescriptorShape
  pub data_len : ℕ
  pub method : ℕ
  pub len : ℕ

pub data State : Type 0 where
  signature : ℕ → State
  fixed : Record → ℕ → State
  variable : Variable → ℕ → State
  member_bytes : DataState → State
  data_scan : ScanState → State
  descriptor : DescriptorState → State
  skip : ℕ → Phase → State

-- The calls of a `ZipEvents`.
pub data Event : Type 0 where
  local_header : Bytes → ℕ → Bool → Bool → Option MemberSizes → ℕ → Event
  member_data : ℕ → Event
  member_end : MemberSizes → ℕ → Event
  central_begun : Event

-- `Walker` of src/chunker/zip/walker/core.rs
pub record Walker : Type 0 where
  pub state : State
  pub phase : Phase
  pub offset : ℕ
  pub fixed : Bytes
  pub variable : Bytes
  pub local_count : ℕ
  pub central_count : ℕ
  pub central_start : Option ℕ
  pub central_end : ℕ
  pub zip64_end : Option Zip64EndRecord

-- What a byte leaves: the walker, the calls of the tap in order, and the header length of a large member.
pub record Step : Type 0 where
  pub walker : Walker
  pub events : List Event
  pub large : Option ℕ

-- Nothing reported.
abbrev pub to : Walker → W Step
to w = ok (record { walker = w; events = []; large = none })
