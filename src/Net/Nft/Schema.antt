-- ===== src/Net/Nft/Schema.antt =====
-- The parts of the nftables schema that src/net/nft.rs builds.
use vivarium.Prelude.{ℕ, List, Bytes}

pub data SetType : Type 0 where
  ipv4_addr ipv6_addr : SetType

pub data SetFlag : Type 0 where
  timeout interval : SetFlag

pub record NfSet : Type 0 where
  pub table : Bytes
  pub name : Bytes
  pub set_type : SetType
  pub flags : List SetFlag

pub data ChainPolicy : Type 0 where
  accept drop : ChainPolicy

pub data Hook : Type 0 where
  input forward output : Hook

pub record Chain : Type 0 where
  pub table : Bytes
  pub name : Bytes
  pub hook : Hook
  pub prio : ℕ
  pub policy : ChainPolicy

pub data Operator : Type 0 where
  eq isin : Operator

mutual
  pub data Expression : Type 0 where
    string : Bytes → Expression
    list : Expressions → Expression
    prefix : (addr : Bytes) (len : ℕ) → Expression
    elem : (val : Bytes) (timeout : ℕ) → Expression
    payload_field : (protocol field : Bytes) → Expression
    meta_l4proto ct_state : Expression

  pub data Expressions : Type 0 where
    nil : Expressions
    cons : Expression → Expressions → Expressions

pub data RejectType : Type 0 where
  tcp_reset icmpx_admin_prohibited : RejectType

pub data Statement : Type 0 where
  match : Expression → Operator → Expression → Statement
  accept : Statement
  reject : RejectType → Statement

pub record Element : Type 0 where
  pub table : Bytes
  pub set : Bytes
  pub value : Expression

-- The objects of a command list, each of which the source adds.
pub data NfObject : Type 0 where
  add_table : Bytes → NfObject
  add_set : NfSet → NfObject
  add_chain : Chain → NfObject
  add_rule : Bytes → List Statement → NfObject
  add_element : Element → NfObject
