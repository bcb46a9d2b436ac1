-- ===== src/Syntax/Assertion.antt =====
-- Assertions, the preconditions of instructions: verifiers/prevail/src/asm_syntax.hpp, with the
-- groups of types of verifiers/prevail/src/crab/type_encoding.hpp.
use linux_dev_env.Base.{String, Bool}
use linux_dev_env.Base.Int.{ℤ}
use linux_dev_env.Label.{Label}
use linux_dev_env.Syntax.Op.{Reg, Value}

pub data TypeGroup : Type 0 where
  number map_fd ctx packet stack shared map_fd_programs mem mem_or_num pointer : TypeGroup
  ptr_or_num stack_or_packet singleton_ptr : TypeGroup

pub data AccessType : Type 0 where
  compare read write : AccessType

pub record ValidSize : Type 0 where
  pub reg : Reg
  pub can_be_zero : Bool

pub record Comparable : Type 0 where
  pub r1 : Reg
  pub r2 : Reg
  pub or_r2_is_number : Bool

pub record Addable : Type 0 where
  pub ptr : Reg
  pub num : Reg

pub record ValidDivisor : Type 0 where
  pub reg : Reg
  pub is_signed : Bool

pub record ValidAccess : Type 0 where
  pub call_stack_depth : ℤ
  pub reg : Reg
  pub offset : ℤ
  pub width : Value
  pub or_null : Bool
  pub access_type : AccessType

pub record ValidMapKeyValue : Type 0 where
  pub access_reg : Reg
  pub map_fd_reg : Reg
  pub key : Bool

pub record ValidCall : Type 0 where
  pub func : ℤ
  pub stack_frame_prefix : String

pub record ValidStore : Type 0 where
  pub mem : Reg
  pub val : Reg

pub record TypeConstraint : Type 0 where
  pub reg : Reg
  pub types : TypeGroup

pub record FuncConstraint : Type 0 where
  pub reg : Reg

pub record ZeroCtxOffset : Type 0 where
  pub reg : Reg

pub record BoundedLoopCount : Type 0 where
  pub name : Label

pub data Assertion : Type 0 where
  comparable : Comparable → Assertion
  addable : Addable → Assertion
  valid_divisor : ValidDivisor → Assertion
  valid_access : ValidAccess → Assertion
  valid_store : ValidStore → Assertion
  valid_size : ValidSize → Assertion
  valid_map_key_value : ValidMapKeyValue → Assertion
  valid_call : ValidCall → Assertion
  type_constraint : TypeConstraint → Assertion
  func_constraint : FuncConstraint → Assertion
  zero_ctx_offset : ZeroCtxOffset → Assertion
  bounded_loop_count : BoundedLoopCount → Assertion
