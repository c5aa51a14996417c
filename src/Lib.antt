-- ===== src/Lib.antt =====
-- A model of wincode-dynamic, which decodes values that `wincode` serialized by a schema that is
-- known at run time only, and of its derive macro, which generates that schema and a bound of the
-- encoded size from a type declaration.
--
-- The program's parts, from the bottom up, and the files that model them:
--
-- * `PrimitiveTy` and `Ty` (wincode-dynamic/src/ty.rs) name the types of fields. PrimitiveTy.antt
--   and Ty.antt hold the enums, their sizes, and the traits `DynPrimitiveTy` and `DynTy` as
--   functions `type_of` on the Rust types of the program that implement them. Any crate may
--   implement `DynPrimitiveTy`: the record of that name is such a type, with its `TYPE`, its width
--   and its values.
-- * `Value`, `PrimitiveValue` and `LazyVec` (wincode-dynamic/src/value.rs) are the decoded values.
--   Value.antt holds them; Read.antt holds the `SchemaReadContext` implementations, one function
--   each (`read_primitive_value`, `read_usize`, `read_value`, `read_vec`, `read_array`).
-- * The module `lazy_vec` of the same file is Lazy.antt: `try_iter_as`, `try_into_iter_as`,
--   `into_dyn_vec`, and the macro `impl_iterator` as `next`, `next_owned`, `iter_len`, `size_hint`.
--   They are for any type that implements `DynPrimitiveTy`, with a `get` on slices that is given. A
--   multiplication that overflows and an unchecked slice out of bounds are the value `fault`.
-- * `Map` and `LenMap` (wincode-dynamic/src/wincode_extra.rs) are LenMap.antt: the loop `fill` with
--   the elements that are initialized at each round, which an error drops. LenMap/Raw.antt is the
--   same operation on the memory of the vector (`read_with_context`), with uninitialized slots, and
--   with a mapping function that has a state and may panic, and with the panic of a capacity that
--   overflows; LenMap/Unwind.antt and LenMap/Pure.antt relate the two.
-- * `Ty::parse` with `read_byte_payload` and `read_primitive_payload` (wincode-dynamic/src/ty.rs)
--   is Parse.antt.
-- * `FieldDef`, `Schema` and `RootSchema` (wincode-dynamic/src/lib.rs) are Schema.antt; the
--   iterator `Fields` is Fields.antt; `Decoder`, `EnumDecoder` and `VariantDecoder` are
--   Decoder.antt. A decoder selects the definitions of a struct or of the variant that the tag
--   names, `Fields` parses one field per `next`, and `Ty::parse` reads through `Map` and `wincode`.
-- * The derive macro (wincode-dynamic-derive/src/lib.rs and wincode_dynamic.rs) is Derive.antt: the
--   meaning of the generated schema and of the generated constant `SERIALIZED_SIZE`, evaluated as
--   the generated code evaluates it. Its inference of `with` adapters (`GenericTypes`,
--   `InferGeneric`, `Field::target_resolved`) is Syntax.antt, the types as syntax trees and what is
--   collected from them, and Adapter.antt, which puts the collected types in. Expand.antt is the
--   declaration as it is parsed, the `where` clause that `generate` adds, and the crate paths;
--   Expand/Traits.antt says, of the traits in scope, which declaration of Derive.antt the generated
--   code stands for. Expand/Compile.antt is `generate` on the parsed declaration, with its error and
--   its panic, and then the compiler: whether the predicates hold, what the constants that the
--   generated code names evaluate to, and what becomes of the declaration.
-- * The derived comparison of values (wincode-dynamic/src/value.rs) is Value/Eq.antt, for
--   comparisons of floats that are given; Value/Contents.antt has values up to whether their bytes
--   are borrowed.
-- * The property tests (wincode-dynamic/src/lib.rs) are Messages.antt, as functions into Bool.
--
-- The files below each of these prove what they are named for. Prelude.antt holds the shared names,
-- tests, list lemmas and machine words. Tests.antt holds runs and the theorems at concrete inputs;
-- Tests/Fixtures.antt holds the types that the unit tests declare, and Tests/Unit.antt and the files
-- below it hold the unit tests themselves, and the integration test
-- (wincode-dynamic/tests/derive_crate_path.rs), as Booleans that run to true.
--
-- The crate `wincode` is not part of the repository. It is the record `Wincode` of operations, which
-- every definition that reads takes as an argument, and the record `WincodeLaws` of its documented
-- behaviour, which the theorems take: what a reader holds, how reading consumes it, that written
-- values are read back, that input cut short is refused, and what the preallocation check compares.
-- Wincode/Slice.antt gives one interpretation over byte lists, with little-endian integers, length
-- prefixes of eight bytes and texts in ASCII, and proves the laws of it.
--
-- Numbers: `usize` has 64 bits (`usize_mod`), and so have the checked operations on it; `Ty::size`
-- multiplies without a check and wraps. A text is its UTF-8 bytes and a float is its bit pattern.
-- A `PrimitiveValue` takes 16 bytes. An in-memory payload is shorter than `usize_mod`.
--
-- The trees of Syntax.antt have a node for each kind of type that the macro tells apart; the types
-- and paths inside a node of any other kind are kept in their order, in which the visitors of the
-- crate `syn` go through them. A type argument is a type also where it is written as a bare path.
--
-- Fuel: the draining of an iterator runs on fuel (`collect`, in Fields/Drain.antt and in
-- Lazy/Collect.antt and Lazy/Owned.antt), of which one more than the items that are left is enough,
-- and so does the visit of the types that are put into an adapter (`visit_type`), of which one more
-- than the collected types is enough, since each type that is put in leaves one fewer.
--
-- The compiler's search for trait implementations is a parameter: the record `Traits` of what it
-- finds, and a function that decides predicates. The `TYPE_META` of the default tag type is a
-- parameter too.
--
-- Not modelled: the implementations of `SchemaRead` and `SchemaWrite` for the schema types, which
-- `wincode` derives; the parsing of attributes, generic parameters and token quoting of the derive
-- macro. The traits that a generated implementation finds in scope are a parameter, and the theorems
-- of Derive.antt take the `TYPE_META`s of field types as given; the one that decodes a declared
-- value is about fields written in the format of their own types. Features and error texts
-- are left out, and so are addresses, and with them the unit test of an unaligned payload.
pub mod Prelude
pub mod Wincode
pub mod PrimitiveTy
pub mod Ty
pub mod Value
pub mod LenMap
pub mod Read
pub mod Lazy
pub mod Parse
pub mod Schema
pub mod Fields
pub mod Decoder
pub mod Syntax
pub mod Adapter
pub mod Derive
pub mod Expand
pub mod Messages
pub mod Tests
