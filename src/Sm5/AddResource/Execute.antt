-- ===== src/Sm5/AddResource/Execute.antt =====
-- `Execute` of src/dxp/sm5/step/AddResourceStep.cpp as a whole: the classes one after another, the
-- temporaries, and the declaration that covers them. A class takes the program that the one before it
-- leaves; a failure of a required step ends it there, and what the step had changed by then is not in
-- the model. Of the context, `state`, `results` and `resource_bindings` are left out.
use direct_xshader_patcher.Base.{
  ℕ, ◌+◌, ◌%◌, ◌^◌, List, [], ◌∷◌, Bool, ◌&&◌, ◌||◌, not, ltb, is_empty, Result, ok, ◌>>=◌, ◌>>◌,
  require, String, if◌then◌else◌,
}
use direct_xshader_patcher.Base.Map.{insert}
use direct_xshader_patcher.Results.{AddResourceResults}
use direct_xshader_patcher.Sm5.Declarations.{
  ComponentModes, TextureDecl, RawResourceDecl, StructuredResourceDecl, CBufferDecl, SamplerDecl,
  UavDecl, InputDecl, OutputDecl,
}
use direct_xshader_patcher.Sm5.Declarations.Declared.{ShaderProgram, ensure_temp_declaration}
use direct_xshader_patcher.Sm5.AddResource.{
  AddError, too_many_temps, AddState, resolve_and_add, add_signatures, texture_class,
  raw_resource_class, structured_resource_class, cbuffer_class, sampler_class, uav_class,
  input_class, output_class,
}

-- A plain name, or an array of consecutive registers.
pub data TempHandle : Type 0 where
  single : String → TempHandle
  temp_array : String → ℕ → TempHandle

pub record AddResourceStep : Type 0 where
  pub required : Bool
  pub textures : List TextureDecl
  pub raw_resources : List RawResourceDecl
  pub structured_resources : List StructuredResourceDecl
  pub cbuffers : List CBufferDecl
  pub samplers : List SamplerDecl
  pub uavs : List UavDecl
  pub inputs : List InputDecl
  pub outputs : List OutputDecl
  pub temps : List TempHandle

-- `bindings` of the context, a map for each class.
pub record Bindings : Type 0 where
  pub textures : List (String × ℕ)
  pub raw_resources : List (String × ℕ)
  pub structured_resources : List (String × ℕ)
  pub cbuffers : List (String × ℕ)
  pub samplers : List (String × ℕ)
  pub uavs : List (String × ℕ)
  pub inputs : List (String × ℕ)
  pub outputs : List (String × ℕ)
  pub temps : List (String × ℕ)

pub record ExecutionContext : Type 0 where
  pub program : ShaderProgram
  pub bindings : Bindings
  pub template_pool_size : ℕ
  pub program_modified : Bool

abbrev u32 : ℕ → ℕ
u32 n = n % 2 ^ 32

-- The registers of the temporaries from a base on, and how many there are.
unfoldable pub bind_temps : ℕ → ℕ → List (String × ℕ) → List TempHandle → List (String × ℕ) × ℕ
bind_temps base offset bindings [] = (bindings, offset)
bind_temps base offset bindings (single name ∷ handles) =
    bind_temps base (u32 (offset + 1)) (insert name (u32 (base + offset)) bindings) handles
bind_temps base offset bindings (temp_array name count ∷ handles) =
    bind_temps base (u32 (offset + count)) (insert name (u32 (base + offset)) bindings) handles

abbrev pub begin : ShaderProgram → List (String × ℕ) → AddState
begin program bindings = record { program = program; bindings = bindings; added = 0 }

-- The registers of the temporaries lie behind the template pool; with it they must not exceed 256.
unfoldable pub add_temps :
    Bool → ℕ → ShaderProgram → List (String × ℕ) → List TempHandle → Result AddError AddState
unfolding bind_temps
add_temps required pool program bindings [] = ok (begin program bindings)
add_temps required pool program bindings (handle ∷ handles) =
    let (bound, offset) =
      bind_temps (u32 (program.temp_count + pool)) 0 bindings (handle ∷ handles) in
    let count = u32 (program.temp_count + offset) in
    let total = u32 (count + pool) in
    do
      require (not (required && ltb 256 total)) (too_many_temps total)
      ok (record {
        program = record program { temp_count = count };
        bindings = bound;
        added = offset;
      })

unfoldable pub execute :
    ComponentModes
    → AddResourceStep
    → ExecutionContext
    → Result AddError (AddResourceResults × ExecutionContext)
unfolding resolve_and_add add_signatures add_temps ensure_temp_declaration texture_class
    raw_resource_class structured_resource_class cbuffer_class sampler_class uav_class input_class
    output_class
execute modes step ctx = do
  let required = step.required
  let bindings = ctx.bindings
  let pool = ctx.template_pool_size
  t ← resolve_and_add texture_class required (begin ctx.program bindings.textures) step.textures
  r ←
      resolve_and_add raw_resource_class required (begin t.program bindings.raw_resources)
        step.raw_resources
  s ←
      resolve_and_add structured_resource_class required
        (begin r.program bindings.structured_resources) step.structured_resources
  c ←
      resolve_and_add (cbuffer_class modes) required (begin s.program bindings.cbuffers)
        step.cbuffers
  m ← resolve_and_add sampler_class required (begin c.program bindings.samplers) step.samplers
  u ← resolve_and_add uav_class required (begin m.program bindings.uavs) step.uavs
  i ← add_signatures (input_class modes) required (begin u.program bindings.inputs) step.inputs
  o ← add_signatures (output_class modes) required (begin i.program bindings.outputs) step.outputs
  p ← add_temps required pool o.program bindings.temps step.temps
  let program =
      if ltb 0 p.program.temp_count || ltb 0 pool
      then ensure_temp_declaration p.program pool
      else p.program
  ok (
    record {
      textures_added = t.added;
      raw_resources_added = r.added;
      structured_resources_added = s.added;
      cbuffers_added = c.added;
      samplers_added = m.added;
      uavs_added = u.added;
      inputs_added = i.added;
      outputs_added = o.added;
      temps_added = p.added;
    },
    record ctx {
      program = program;
      bindings = record {
        textures = t.bindings;
        raw_resources = r.bindings;
        structured_resources = s.bindings;
        cbuffers = c.bindings;
        samplers = m.bindings;
        uavs = u.bindings;
        inputs = i.bindings;
        outputs = o.bindings;
        temps = p.bindings;
      };
      program_modified =
          ctx.program_modified
          || (ltb 0 (t.added + r.added + s.added + c.added + m.added + u.added)
              || not (is_empty step.temps));
    },
  )
