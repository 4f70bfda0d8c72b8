-- ===== src/Lib.antt =====
-- A verification library for toy-language, a compiler front end and compile-time interpreter.
--
-- The program reads source files, parses them into syntax trees, resolves names in scopes, and
-- evaluates typed code at compile time. The parts modelled here are those that the others rest on:
-- the values that compile-time evaluation computes with, the lexer, the operators of expressions,
-- the nodes of trees, the hash tables of scopes and of interned values, the identifiers, the heap
-- of compile-time evaluation, and the algorithms of infra/.
--
-- Files and code:
--
-- Base.antt and its children: shared names. Base/Int.antt has the integers over the native numbers,
-- Base/Word.antt the integer types of infra/types.hpp (`Width`, and the casts `to_u`, `to_s` and
-- `wrap_s`), Base/Outcome.antt the runs of code that can panic or be undefined, Base/Lists.antt
-- arrays as lists, Base/Bytes.antt little-endian byte arrays, Base/Bits.antt and Base/Digits.antt
-- the arithmetic of masks and binary digits, Base/Ring.antt slots that wrap around, Base/Maybe.antt
-- chains of optional results.
--
-- CompValues/Checked.antt: `add_checked_u8` to `mul_checked_s64` of core/comp_values.cpp, as one
-- function for each operation and signedness that takes the width. A call returns the result and
-- the value left in `*out`. `__builtin_mul_overflow` is taken as documented.
-- CompValues/Bitwise.antt: `bitwise_add` to `bitwise_mod` (by way of
-- `bitwise_binary_arithmetic_op`), `bitwise_not` and `bitwise_neg` of core/comp_values.cpp. The
-- caller's `dst` is an argument and a result. CompValues/ByteShift.antt: `bitwise_shift_left` and
-- `bitwise_shift_right`.
-- CompValues/CompBits.antt: `bits_from_comp_integer`.
-- CompValues/CompInteger.antt: `comp_integer_from_u64` to `comp_integer_compare` of
-- core/comp_values.cpp. `Run` has a constructor for a call of `panic` and one for undefined
-- behaviour. A shift of a signed value and a cast to a signed type are those of two's complement.
--
-- Math.antt: `is_pow2`, `next_pow2`, `next_multiple`, `align_to` and `log10_ceil` of
-- infra/math.hpp, for unsigned types. Hash.antt: infra/hash.hpp. InplaceSort.antt:
-- infra/inplace_sort.hpp, with the template parameter `Comparator` as a record of a comparison and
-- its laws.
--
-- ScopeMap.antt: the `ScopeMap` of core/lexical_analyser.cpp with its operations. The bit set
-- `occupied_bits` is a list of Booleans, one for each slot.
-- Scopes.antt: the arrays `scopes` and `closures` of the `LexicalAnalyser` (core/structure.hpp),
-- with `push_scope`, `pop_scope`, `set_closure`, `set_closure_list` and `add_name_to_closures` of
-- core/lexical_analyser.cpp. Templating.antt: its `check_expression_is_templated` and
-- `check_parameter_is_templated`, over trees of nodes. Both look names up in the maps of
-- ScopeMap.antt.
--
-- Lexer.antt and its children: the lexer of core/parse.cpp, over the text from `parser.curr` on as
-- a list of bytes. The null at the end of the text, and a read behind it, are 0. `Scan` has a
-- constructor for a call of `parse_error_fatal`, with its error, one for a panic, and one for
-- undefined behaviour.
-- Lexer/Trivia.antt: `skip_block_comment` and `skip_whitespace`. Lexer/Number.antt:
-- `scan_number_token_with_base` and `scan_number_token`, on the integers of
-- CompValues/CompInteger.antt; `strtod` is an argument. Lexer/Character.antt: `scan_utf8_char`,
-- `scan_escape_char` and `scan_char_token`. Lexer/Text.antt: `scan_string_token`, up to the bytes
-- of the literal: the value and its type are not modelled. Lexer/Tokens.antt: `Token`, and the
-- cases of operators of `next_without_source`. Lexer/TokenName.antt: `token_name`. Lexer/Next.antt:
-- `scan_identifier_token`, `next_without_source`, `next` and `peek`; the answers of the identifier
-- pool are an argument.
--
-- AstPool.antt and its children: the nodes of core/ast_pool.cpp in memory, as a function from their
-- index in units of 8 bytes, `push_node` of the builder, and the iterators over children, in
-- preorder, in postorder (AstPool/Postorder.antt) and flat. AstPool/Layout.antt says what trees in
-- memory look like.
-- OperatorStack.antt: the functions `pop_operator` to `pop_remaining` of core/parse.cpp, on the
-- builder of AstPool.antt. OperatorStack/Tables.antt: `UNARY_OPERATOR_DESCS` and
-- `BINARY_OPERATOR_DESCS`.
-- OperatorStack/Items.antt: how `parse_expr` uses the stack; an `Item` is an operand of one node,
-- an operator, or a parenthesis.
--
-- IdMap.antt and its children: `IdMap` of infra/container/id_map.hpp, over an interface for its
-- allocator. IdMap/Slots.antt: where entries stand in the table; IdMap/Placement.antt and
-- IdMap/Rehash.antt: the insertion of an entry and of all; IdMap/Lookup.antt: `find_by_key`;
-- IdMap/Insertion.antt, IdMap/Valid.antt and IdMap/Identity.antt: `id_from`.
-- IdentifierPool.antt and its children: core/identifier_pool.cpp, whose entries are the allocator
-- of an `IdMap`.
-- CompHeap.antt and its children: the allocator of core/comp_heap.cpp, with addresses as offsets
-- into its memory. CompHeap/Blocks.antt: free lists as sets of slots; CompHeap/SmallBlocks.antt,
-- CompHeap/FreeList.antt and CompHeap/Remainder.antt: `comp_heap_add_to_freelist`;
-- CompHeap/AtEnd.antt, CompHeap/Allocation.antt and CompHeap/Header.antt:
-- `comp_heap_alloc_internal` at the end of the heap; CompHeap/Pop.antt, CompHeap/Sizes.antt and
-- CompHeap/Taken.antt: the same from a free list.
--
-- Fuel: `next_pow2` has as many rounds as its type has bits, `log10_ceil` has 20, `heap_sift` as
-- many as there are elements, `scope_map_add_nogrow` and `scope_map_get` as many as there are
-- slots, `set_closure_list` one more. `skip_whitespace` and `scan_string_token` have one round more
-- than there are bytes, each of which takes at least one. The iterators over trees take the number
-- of their rounds. The loops over the table of an `IdMap` that move entries on have 65 rounds for
-- every slot and 65 more, `find_by_key` has 65, and `id_from` starts again at most 33 times, as
-- often as a table can double. The second loop of `comp_heap_add_to_freelist` has more rounds than
-- there are bytes, and is `undefined` without any. Where it runs out, the lexer and `IdMap` give
-- `unfinished`, `scope_map_add_nogrow` gives `hangs`, the functions with an optional result `none`.
--
-- Not modelled: floats, which are the processor's; the platform layer, printing and configuration,
-- which are input and output; and the rest of the recursive descent of the parser, `complete_ast`,
-- the pools of types and opcodes, the interpreter and the resolution of names over syntax trees.
-- Assertions that are compiled out are conditions of the theorems, or lead to `undefined`. Of the
-- heap, the garbage collection and the leak bitmap are left out.
pub mod Base
pub mod Math
pub mod Hash
pub mod InplaceSort
pub mod CompValues
pub mod CompHeap
pub mod IdMap
pub mod IdentifierPool
pub mod ScopeMap
pub mod Scopes
pub mod Lexer
pub mod AstPool
pub mod OperatorStack
pub mod Templating
pub mod Tests
