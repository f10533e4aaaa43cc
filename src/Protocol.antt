-- ===== src/Protocol.antt =====
-- internal/protocol: the messages of the agreement protocol, over the type of the agreed values.
use suffren.Base.{ℕ, Option}
use suffren.Crdt.GCounter.{NodeId}

-- The byte of a command. The constants of the source are 0 to 3; any other byte is `unknown`.
pub data CommandType : Type 0 where
  propose ack nack learn : CommandType
  unknown : ℕ → CommandType

-- `value` is an interface value in the source: `none` is nil.
pub record Command (L : Type 0) : Type 0 where
  pub kind : CommandType
  pub value : Option L
  pub seq_number : ℕ

pub record Message (L : Type 0) : Type 0 where
  pub sender : NodeId
  pub payload : Command L

-- A message as the source writes it where it names no sequence number, which then is 0.
abbrev pub message : {L : Type 0} → NodeId → CommandType → Option L → Message L
message sender kind value = record {
  sender = sender;
  payload = record { kind = kind; value = value; seq_number = 0 };
}

unfoldable pub new_message : {L : Type 0} → NodeId → Command L → Message L
new_message sender cmd = record { sender = sender; payload = cmd }
