-- ===== src/Tests/Compile.antt =====
-- A program that calls a snek function with a phantom input, compiled.
use serpentine.Prelude.{ℕ, zero, suc, ◌≡◌, ◌≢◌, refl, subst, List, [], ◌∷◌, arith}
use serpentine.Prelude.Text.{codes}
use serpentine.Prelude.Outcome.{ok, out_of_fuel}
use serpentine.Engine.DataModel.{Data, type_}
use serpentine.Engine.Nodes.{return_type, noop, join, literal}
use serpentine.Snek.Span.{Span, dummy}
use serpentine.Snek.Ir
use serpentine.Snek.Ir.{Function, Pipeline, builtin_function, custom}
use serpentine.Snek.Compiler.{
  ResolveResult, CompileResult, compile, get_symbols, push_stack, pop_stack,
}
use serpentine.Snek.Compiler.Soundness.{IsProgram, compile-IsProgram}
use serpentine.Snek.Compiler.Termination.{IsStratified, FunctionCallsBelow, compile-ne-out_of_fuel}

-- A span of the only file.
abbrev at : ℕ → Span
at n = record { file_id = 0; start = n; end = suc n }

abbrev call : ℕ → ℕ → List ℕ → List ℕ → Ir.Node
call name function arguments phantom_inputs = record {
  name = name;
  function = function;
  arguments = arguments;
  phantom_inputs = phantom_inputs;
  span = at name;
}

-- `def twice(x) { return Join(x, x); }`, as function 2.
abbrev functions : List Function
functions =
    builtin_function 1
    ∷ builtin_function 2
    ∷ custom (10 ∷ []) [] (call 11 1 (10 ∷ 10 ∷ []) [] ∷ []) 11
    ∷ []

-- A literal, the same literal again, and a call of `twice` that waits for the second.
abbrev resolved : ResolveResult Unit
resolved = record {
  ir = record {
    top_level = call 0 0 [] [] ∷ call 1 0 [] [] ∷ call 2 2 (0 ∷ []) (1 ∷ []) ∷ [];
    functions = functions;
    start_point = 2;
  };
  nodes = noop ∷ literal (Data.string (codes "a")) ∷ join ∷ [];
  noop = 0;
}

-- One literal, the node inside `twice`, and a `Noop` that waits.
abbrev compiled : CompileResult Unit
compiled = record {
  nodes = resolved.nodes;
  graph =
      (
        record { kind = 1; inputs = []; phantom_inputs = [] },
        record { location = at 0; stack_trace = [] },
      )
      ∷ (
        record { kind = 2; inputs = 0 ∷ 0 ∷ []; phantom_inputs = [] },
        record { location = at 11; stack_trace = at 2 ∷ [] },
      )
      ∷ (
        record { kind = 0; inputs = 1 ∷ []; phantom_inputs = 0 ∷ [] },
        record { location = dummy; stack_trace = [] },
      )
      ∷ [];
  start_node = 2;
}

compile-resolved : compile resolved ≡ ok compiled
unfolding compile get_symbols return_type push_stack type_ pop_stack
compile-resolved = refl

compile-IsProgram_example : IsProgram resolved compiled
compile-IsProgram_example = compile-IsProgram resolved compiled refl compile-resolved

functions-IsStratified : IsStratified functions
functions-IsStratified zero f e =
    let p : builtin_function 1 ≡ f = cc in subst (FunctionCallsBelow 0) p tt
functions-IsStratified (suc zero) f e =
    let p : builtin_function 2 ≡ f = cc in subst (FunctionCallsBelow 1) p tt
functions-IsStratified (suc (suc zero)) f e =
    let p : custom (10 ∷ []) [] (call 11 1 (10 ∷ 10 ∷ []) [] ∷ []) 11 ≡ f = cc in
    subst (FunctionCallsBelow 2) p (tt, (omega arith, tt))
functions-IsStratified (suc (suc (suc k))) f e = cc

compile-ne-out_of_fuel_example : compile resolved ≢ out_of_fuel
compile-ne-out_of_fuel_example = compile-ne-out_of_fuel resolved functions-IsStratified
