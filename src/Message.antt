-- ===== src/Message.antt =====
-- internal/message: the message that the interfaces share. A time is a number of nanoseconds since
-- 1970, and the zero time is `none`.
pub mod Expiry
use vectorcore_mmsc.Base.{ℕ, List, Option, Bool}

-- The type `Part`.
pub record Part : Type 0 where
  pub content_type : List ℕ
  pub content_id : List ℕ
  pub content_location : List ℕ
  pub content : List ℕ
  pub store_path : List ℕ
  pub size : ℕ

pub data Status : Type 0 where
  queued : Status
  delivering : Status
  delivered : Status
  expired : Status
  rejected : Status
  forwarded : Status
  unreachable : Status

pub data Direction : Type 0 where
  mobile_originated : Direction
  mobile_terminated : Direction

-- The type `Interface`.
pub data Origin : Type 0 where
  mm1 : Origin
  mm4 : Origin
  mm3 : Origin
  mm7 : Origin

pub data MessageClass : Type 0 where
  personal : MessageClass
  advertisement : MessageClass
  informational : MessageClass
  auto : MessageClass

pub data Priority : Type 0 where
  low : Priority
  normal : Priority
  high : Priority

pub record Message : Type 0 where
  pub id : List ℕ
  pub transaction_id : List ℕ
  pub status : Status
  pub direction : Direction
  pub from : List ℕ
  pub to : List (List ℕ)
  pub cc : List (List ℕ)
  pub bcc : List (List ℕ)
  pub subject : List ℕ
  pub parts : List Part
  pub content_type : List ℕ
  pub mms_version : List ℕ
  pub message_class : MessageClass
  pub priority : Priority
  pub delivery_report : Bool
  pub read_report : Bool
  pub expiry : Option ℕ
  pub delivery_time : Option ℕ
  pub message_size : ℕ
  pub content_path : List ℕ
  pub store_id : List ℕ
  pub origin : Origin
  pub origin_host : List ℕ
  pub received_at : Option ℕ
  pub updated_at : Option ℕ
