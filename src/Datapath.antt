-- ===== src/Datapath.antt =====
-- project/flow.c: what `key_extract` does with every TCP packet that the switch of the access point
-- forwards. Here is what it reads.
pub mod Options
pub mod Table
pub mod Handle
use controller_project.Base.{ℕ, List, Bool}
use controller_project.Records.{Mac}

abbrev pub zero_mac : Mac
zero_mac = record { b0 = 0; b1 = 0; b2 = 0; b3 = 0; b4 = 0; b5 = 0 }

-- What the code reads of a packet. `options` is the memory from `tcp + 20` on.
pub record Packet : Type 0 where
  pub ip_src : ℕ
  pub ip_dst : ℕ
  pub source : ℕ
  pub dest : ℕ
  pub seq : ℕ
  pub ack_seq : ℕ
  pub flags : ℕ
  pub window : ℕ
  pub tot_len : ℕ
  pub ihl : ℕ
  pub doff : ℕ
  pub syn : Bool
  pub options : List ℕ
  pub h_source : Mac
  pub h_dest : Mac

-- What `get_systime_linger` gives.
pub record Clock : Type 0 where
  pub sec : ℕ
  pub usec : ℕ
