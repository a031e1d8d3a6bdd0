-- ===== src/Tests.antt =====
-- The theorems at concrete inputs, and the data that these share: a sender with one address, a
-- receiver, and the addresses of two overlay nodes.
pub mod Rules
pub mod Net
pub mod Manager
pub mod Dar
pub mod Sender
pub mod Stun
pub mod Apps
pub mod Receiver
pub mod Start
pub mod Protocol
pub mod NodeStart
pub mod Table
pub mod Replay
pub mod Short
pub mod Log
pub mod Standalone
pub mod Program
pub mod Server
use premium.Base.{arith}
use premium.Text.{Bytes, codes, Token}
use premium.Rules.Exchange.{IsField}
use premium.Manager.Nodes.{IsAddress, comma}

abbrev pub sender_ip : Bytes
sender_ip = codes "10.0.0.1"

abbrev pub receiver_ip : Bytes
receiver_ip = codes "10.0.0.2"

abbrev pub relay_a : Bytes
relay_a = codes "10.0.1.1"

abbrev pub relay_b : Bytes
relay_b = codes "10.0.1.2"

pub sender-IsField : IsField sender_ip
sender-IsField = record { token = (cc, omega arith); no_nul = omega arith }

pub receiver-IsField : IsField receiver_ip
receiver-IsField = record { token = (cc, omega arith); no_nul = omega arith }

pub relay_a-IsAddress : IsAddress relay_a
relay_a-IsAddress = record { some_bytes = cc; dotted = omega arith; fits = omega arith }

pub relay_b-IsAddress : IsAddress relay_b
relay_b-IsAddress = record { some_bytes = cc; dotted = omega arith; fits = omega arith }

pub field-Token : Token comma relay_a
field-Token = (cc, omega arith)
