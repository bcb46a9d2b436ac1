-- ===== src/Lib.antt =====
-- The eBPF verifier Prevail, as the repository builds it in verifiers/prevail/src.
--
-- The verifier reads the bytes of an eBPF program, decodes them into instructions, extracts the
-- preconditions of each instruction, and checks these against an abstract interpretation of the
-- program, which keeps an interval for each register and which bytes of the stack are numbers, and
-- assumes linear constraints. Modelled here are its front end, from bytes to preconditions, the
-- encoder that goes back to bytes, the control-flow graph that is built from the instructions, and
-- these parts of the abstract interpretation:
--
-- - Base, Base.Int, Base.Product, Base.Bits: Boolean tests on the native numbers, integers with the
--   conversions between signed and unsigned numbers of a width, their products, and masks of bits.
-- - Outcome: exceptions as values, and the notes that the decoder collects; Outcome.Noting is the
--   monad of both, Outcome.Inversion what a chain that succeeds says of its steps. `Ends P r` says
--   that r is a value with P or an exception of the code, thus not the end of the fuel, `Returns P r`
--   that it is a value with P.
-- - Gsl: the interface of `gsl::narrow`, which stands in a library outside the repository.
-- - Isa: verifiers/prevail/src/ebpf_vm_isa.hpp, with `opcode_to_width` and `width_to_opcode` of
--   asm_unmarshal.cpp.
-- - Number: `number_t` of verifiers/prevail/src/crab_utils/num_big.hpp. Its `cpp_int` is an integer;
--   what the code calls of Boost beyond sums, products and comparisons is the interface `CppInt`.
-- - Bound: `extended_number` of verifiers/prevail/src/crab_utils/num_extended.hpp.
-- - Interval: `interval_t` of verifiers/prevail/src/crab/interval.hpp and interval.cpp. Width has the
--   intervals of the integral types and truncation; Division is `operator/`, `SDiv` and `UDiv`,
--   Remainder `SRem` and `URem`, Bitwise the bit operations and shifts. The other modules below it
--   have the theorems: intervals stand for sets of integers, `Has i z` says that z is in i.
-- - Bitset: `bitset_domain_t` of verifiers/prevail/src/crab/bitset_domain.hpp.
-- - Linear: `linear_expression_t` and `linear_constraint_t` of verifiers/prevail/src/crab, and the
--   comparisons of dsl_syntax.hpp. A `std::map` is a list in the order of its keys.
-- - Label: verifiers/prevail/src/crab/label.hpp. Order is the order of labels, Text their texts, of
--   asm_ostream.cpp, and Keyed has sets and maps over labels.
-- - Syntax: the instructions and assertions of verifiers/prevail/src/asm_syntax.hpp.
-- - Platform: helper prototypes, conformance groups and program information, of platform.hpp,
--   helpers.hpp, spec_type_descriptors.hpp and ebpf_base.h.
-- - Unmarshal: verifiers/prevail/src/asm_unmarshal.cpp. Operand has the checks and operands that
--   the decoders share; AluOp and Alu are `getAluOp` and `makeAluOp`; NoteFree and Memory are
--   `makeMemOp`; Lddw is `makeLddw`; Helper is `makeCall`; Jump is `makeJmp`; Program is the loop
--   `Unmarshaller::unmarshal` and the function `unmarshal` that catches `InvalidInstruction`.
-- - Marshal: verifiers/prevail/src/asm_marshal.cpp. Code has the codes of the operators, Visitor,
--   Jump and Memory the visitors of `MarshalVisitor`, Sequence the functions `marshal`, `size` and
--   `get_labels`.
-- - Assertions: verifiers/prevail/src/assertions.cpp. Access and Extractor are `AssertExtractor`,
--   Condition is its `explicate`.
-- - Cfg: `cfg_t` of verifiers/prevail/src/crab/cfg.hpp. Builder is `cfg_builder_t` of asm_cfg.cpp,
--   Reverse its `reverse` and `has_fall`, Inline `add_cfg_nodes`, Program `instruction_seq_to_cfg`,
--   Prepare `prepare_cfg` and Blocks `collect_basic_blocks`. Graph, Flow, Negation,
--   Prepare.Annotated and, below Blocks, Chain, Collected, Degrees, Walk, Growing, Outer and Covered have the
--   theorems.
-- - Wto: verifiers/prevail/src/crab/wto.hpp and wto.cpp; Builder is `wto_builder_t`, Nesting
--   `wto_nesting_t` with the theorem on its order.
-- - Fixpoint: verifiers/prevail/src/crab/fwd_analyzer.cpp. Interface is what it calls of the abstract
--   domain, with the laws that the lemmas assume; Table has the table of invariants and the joins; Fixpoint
--   the visits of labels and cycles, and `run_forward_analyzer`. Reach says what executions reach and
--   what a weak topological order is. Soundness is about the values in the table, Total and Returned
--   about what does not throw, Answer about both, and Checked the tests that show an
--   order to be one.
-- - Roundtrip, Safety, Preconditions: the theorems on the front end; Safety.Size and Safety.Position
--   are about the encoder of sequences. Tests: each theorem at a concrete input, and runs.
--
-- The decoder is a class with a vector of notes, one entry for each slot. It is a function from the
-- notes to a result and the notes after it. A note written before a throw stays written. The
-- extractor and the encoder are functions into `Result`. `InvalidInstruction`, the standard
-- exceptions, `CRAB_ERROR` and a failed `assert` are constructors of `Error`; an `assert` is taken
-- to be checked. The numbers that a message has appended by `std::to_string` are kept as numbers.
--
-- Numbers are the native ones. An opcode, an offset, an immediate or a register of an instruction
-- is a number or an integer, and the theorems that need its width say so; the arithmetic of the
-- code on 8, 16, 32 and 64 bits is written with its modulus. The loop of the decoder is by
-- recursion on the slots that are left, two at a time where it skips one, so it needs no fuel; the
-- other loops of the front end are by recursion on a list. The divisions and remainders of intervals
-- call themselves on the parts of an operand below and above 0. They have fuel, the depth of the
-- calls: one call splits the divisor, one the dividend, and the third splits nothing, so that three
-- suffice. The walk of `add_cfg_nodes` has the number of nodes and one more as fuel, since each
-- round copies a node that has no copy, and its recursion the greatest depth of calls. Of the loops
-- of `collect_basic_blocks` the outer one has the number of nodes as fuel, since each round takes one
-- off the worklist, and the inner one that number and one, since each round sees a new node. The fuel of
-- the weak topological order, the number of its tasks, is a parameter. The analysis has two: the rounds
-- of increasing iterations, of which three more than the height of widening suffice, and the depth of
-- nested cycles; its decreasing iterations are those of the code, 2,000,000 and one. The loop of `all_num_width`
-- has the bytes up to the end of the stack as fuel.
--
-- The values of the conformance groups (of the library bpf_conformance), the helper prototypes and
-- which helpers are usable are fields of the platform, a parameter of the decoder. The printing of
-- instructions and the comparison of assertions are not modelled, as they decide nothing here. Nor
-- are the printing of intervals and bitsets, and `widening_thresholds`, a template that nothing calls.
-- Nor are the statistics of a control-flow graph, the printing of a weak
-- topological order, and the thresholds of thresholds.cpp, which nothing uses. The other abstract
-- domains and the transformer are not modelled: the forward analysis has them as an interface, so
-- no result is about its answer: the lemmas of Fixpoint hold under laws of the domain, and of an order
-- that is a weak topological one, which Tests.Fixpoint and Tests.Program compute for two graphs.
pub mod Base
pub mod Outcome
pub mod Gsl
pub mod Isa
pub mod Number
pub mod Bound
pub mod Cfg
pub mod Wto
pub mod Fixpoint
pub mod Interval
pub mod Bitset
pub mod Linear
pub mod Label
pub mod Syntax
pub mod Platform
pub mod Unmarshal
pub mod Marshal
pub mod Assertions
pub mod Roundtrip
pub mod Safety
pub mod Preconditions
pub mod Tests
