-- ===== src/Lib.antt =====
-- caf, a fuzzer for the APIs of JavaScript hosts: its test cases, how they are stored and read
-- back, and the pools and stores they are made from.
--
-- A test case is a sequence of calls of API functions; the values of a call are primitive values,
-- arrays, and placeholders that stand for what earlier calls returned. The fuzzer takes bytes from
-- AFL, deserialises a test case, changes it, and serialises the result. All values belong to an
-- object pool; the functions come from a metadata store, a tree of entries by the components of
-- dotted names.
--
--   Infrastructure/Result        how a run ends: exceptions, assertions and aborts are values
--   Infrastructure/Stream        include/Infrastructure/Stream.h, int_cast of Casting.h, and WriteInt,
--                                WriteFloat, ReadInt and ReadFloat of the serialiser's files
--   Infrastructure/Random        include/Infrastructure/Random.h
--   Basic/CafStore               include/Basic/CAFStore.h, src/Basic/CAFStore.cpp, include/Basic/Function.h
--   Fuzzer/Value                 include/Fuzzer/Value.h, include/Basic/ValueKind.h
--   Fuzzer/TestCase              include/Fuzzer/TestCase.h, include/Fuzzer/FunctionCall.h
--   Fuzzer/ObjectPool            include/Fuzzer/ObjectPool.h, src/Fuzzer/ObjectPool.cpp
--   Fuzzer/Serializer            src/Fuzzer/TestCaseSerializer.cpp
--   Fuzzer/Deserializer          src/Fuzzer/TestCaseDeserializer.cpp
--   Fuzzer/Scope                 what a test case may refer to
--   Fuzzer/RoundTrip             the serialiser and the deserialiser together
--   Fuzzer/Generation, Generator include/Fuzzer/TestCaseGenerator.h, src/Fuzzer/TestCaseGenerator.cpp
--   Fuzzer/Mutator               src/Fuzzer/TestCaseMutator.cpp: in Fixer the class PlaceholderFixer, in
--                                Calls, Arguments and Values the mutators of test cases, of the number
--                                of arguments and of values, in Numbers those of numbers
--   Fuzzer/Synthesis             src/Fuzzer/JavaScriptSynthesisBuilder.cpp: the text of statements; in
--                                Modules and Builder src/Fuzzer/NodejsSynthesisBuilder.cpp,
--                                src/Fuzzer/SynthesisBuilder.cpp and src/Fuzzer/TestCaseSynthesiser.cpp;
--                                in Program what a program may look like
--   Fuzzer/AflExport             src/Fuzzer/AFLExport.cpp, the custom mutator
--   Prelude                      lists, options, maps and tests that the parts share
--   Tests, PoolTests, GeneratorTests, MutatorTests, SynthesisTests
--                                runs on concrete inputs
--
-- A method of a class is a function of the same name in snake_case; what it changes is an argument
-- and a part of its result. An overloaded name says what it is about: Serialize of a test case, of a
-- call and of a value are serialize, serialize_function_call and serialize_value.
--
-- Pointers. Values other than arrays never change, and a pointer to one is its content. Arrays change
-- and can be shared or hold themselves, so an array is an address into the arrays that the pool owns.
-- The synthesis tells all values apart by their pointers; there, every value is at a pointer, which is
-- its position in a memory. A pointer to an entry of the store is its position among the entries.
--
-- Numbers. An int32_t and a double are their bit patterns. Integers are stored with the least
-- significant byte first, as the machines do that the fuzzer runs on. Read copies what there is
-- where the input ends before what was asked for; ReadInt, ReadFloat and ReadByte then use a local
-- variable that nothing has written, which C++ leaves undefined, and that is an error of its own
-- here. An index of the placeholder table is that of a call or comes from four bytes, so that it
-- does not wrap.
--
-- Fuel. The serialiser, the deserialiser and the generator recurse into arrays. A written array is a
-- back reference from then on, so a value is at most as deep as there are arrays, and the serialiser
-- has one unit more. Every array takes bytes from the input, so the deserialiser has one unit more
-- than the input has bytes. The generator makes arrays only above its depth limit, and has one unit
-- more than the limit. The mutator goes into arrays down to the same limit, with the same fuel. The
-- placeholder fixer goes through each array once, and has one unit more than there are arrays. The
-- synthesis gives a value its variable before it goes into its elements, and has one unit more than
-- there are values.
--
-- Random numbers. The engine, the distributions of the C++ standard library and the arithmetic on
-- doubles are a parameter, of which the range of the distributions is assumed. So are the printing of
-- numbers and the classes of characters.
--
-- Not modelled: the handler of AFL that synthesises an input before it is saved, the parser of the
-- targets, whose format is one of its own, and the code that calls V8, LLVM, clang or the operating
-- system.
pub mod Prelude
pub mod Infrastructure
pub mod Basic
pub mod Fuzzer
