-- ===== src/Check/Models.antt =====
-- The sequential models of crates/detersim-check/src/lib.rs, `mod models`.
use detersim.Prelude.{
  ℕ, ◌≡◌, ap, Bool, true, false, ◌↔◌, Option, some, List, [], ◌∷◌, ◌++◌, length, Map, lookup,
  insert, Eq, arith,
}
use detersim.Check.{Model}

pub data RegisterInput (T : Type 0) : Type 0 where
  read : RegisterInput T
  write : (value : T) → RegisterInput T

pub data RegisterOutput (T : Type 0) : Type 0 where
  value : (held : T) → RegisterOutput T
  ok : RegisterOutput T

abbrev register_step : {T : Type 0} → T → RegisterInput T → Option (T × RegisterOutput T)
register_step state read = some (state, RegisterOutput.value state)
register_step state (write held) = some (held, RegisterOutput.ok)

-- `Register<T>`.
abbrev pub register : {T : Type 0} → T → Model
register {T} initial = record {
  State = T;
  Input = RegisterInput T;
  Output = RegisterOutput T;
  init = initial;
  step = register_step;
}

pub data SingleKeyInput (T : Type 0) : Type 0 where
  get : SingleKeyInput T
  put : (value : T) → SingleKeyInput T

pub data SingleKeyOutput (T : Type 0) : Type 0 where
  value : (held : Option T) → SingleKeyOutput T
  ok : SingleKeyOutput T

abbrev single_key_step :
    {T : Type 0} → Option T → SingleKeyInput T → Option (Option T × SingleKeyOutput T)
single_key_step state get = some (state, SingleKeyOutput.value state)
single_key_step state (put held) = some (some held, SingleKeyOutput.ok)

-- `SingleKeyKv<T>`.
abbrev pub single_key_kv : {T : Type 0} → Option T → Model
single_key_kv {T} initial = record {
  State = Option T;
  Input = SingleKeyInput T;
  Output = SingleKeyOutput T;
  init = initial;
  step = single_key_step;
}

pub data KvInput (V : Type 0) : Type 0 where
  get : (key : ℕ) → KvInput V
  put : (key : ℕ) (value : V) → KvInput V

pub data KvOutput (V : Type 0) : Type 0 where
  value : (held : Option V) → KvOutput V
  ok : KvOutput V

abbrev kv_step : {V : Type 0} → Map V → KvInput V → Option (Map V × KvOutput V)
kv_step state (get key) = some (state, KvOutput.value (lookup key state))
kv_step state (put key held) = some (insert key held state, KvOutput.ok)

-- `MultiKeyKv<K, V>`, with number keys.
abbrev pub multi_key_kv : {V : Type 0} → Map V → Model
multi_key_kv {V} initial = record {
  State = Map V;
  Input = KvInput V;
  Output = KvOutput V;
  init = initial;
  step = kv_step;
}

pub data AppendLogInput (T : Type 0) : Type 0 where
  append : (value : T) → AppendLogInput T
  read_all : AppendLogInput T

pub data AppendLogOutput (T : Type 0) : Type 0 where
  index : (at : ℕ) → AppendLogOutput T
  entries : (held : List T) → AppendLogOutput T

abbrev append_log_step :
    {T : Type 0} → List T → AppendLogInput T → Option (List T × AppendLogOutput T)
append_log_step state (append held) =
    some (state ++ held ∷ [], AppendLogOutput.index (length state))
append_log_step state read_all = some (state, AppendLogOutput.entries state)

-- `AppendOnlyLog<T>`.
abbrev pub append_only_log : {T : Type 0} → List T → Model
append_only_log {T} initial = record {
  State = List T;
  Input = AppendLogInput T;
  Output = AppendLogOutput T;
  init = initial;
  step = append_log_step;
}

-- The derived `==` of a register's outputs.
module _ {T : Type 0} ⦃e : Eq T⦄ where
  abbrev pub same_output : RegisterOutput T → RegisterOutput T → Bool
  same_output (RegisterOutput.value a) (RegisterOutput.value b) = e.beq a b
  same_output (RegisterOutput.value a) RegisterOutput.ok = false
  same_output RegisterOutput.ok (RegisterOutput.value b) = false
  same_output RegisterOutput.ok RegisterOutput.ok = true

  pub same_output_iff : (a b : RegisterOutput T) → (same_output a b ≡ true) ↔ (a ≡ b)
  same_output_iff (RegisterOutput.value a) (RegisterOutput.value b) = (
    λ h. ap RegisterOutput.value ((e.beq_iff a b).0 h),
    λ h. (e.beq_iff a b).1 (let q : a ≡ b = ground arith in q),
  )
  same_output_iff (RegisterOutput.value a) RegisterOutput.ok = ground arith
  same_output_iff RegisterOutput.ok (RegisterOutput.value b) = ground arith
  same_output_iff RegisterOutput.ok RegisterOutput.ok = ground arith

  instance abbrev pub output_eq : Eq (RegisterOutput T)
  output_eq = record { beq = same_output; beq_iff = same_output_iff }
