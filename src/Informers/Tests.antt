-- ===== src/Informers/Tests.antt =====
-- A factory with one informer, asked for twice and started twice.
use resolution.Prelude.{ℕ, ◌≤◌, ◌≡◌, refl, none, List, [], ◌∷◌}
use resolution.Prelude.Int.{ℤ, pos}
use resolution.Informers.{
  start, start_each, informer_for, request_type, new_filtered_factory, new_factory_with_options,
  with_namespace, with_tweak_list_options,
}
use resolution.Informers.Once.{Operation, starts, asks, operate_all, count, new, running-once}

-- Informers are told apart by numbers.
abbrev makes : ℕ → ℕ → ℤ → ℕ
makes n client resync = n

abbrev ops : List (Operation ℕ ℕ)
ops =
    asks request_type (makes 7)
    ∷ starts
    ∷ asks request_type (makes 8)
    ∷ asks "v1.Pod" (makes 9)
    ∷ starts
    ∷ []

running-once_example :
    (count request_type (operate_all ops (new {O = ℕ} ℕ 0 (pos 0) "" none)).running ≤ 1)
    × (count request_type (start (operate_all ops (new {O = ℕ} ℕ 0 (pos 0) "" none))).running ≡ 1)
unfolding start start_each informer_for new_filtered_factory new_factory_with_options with_namespace
    with_tweak_list_options
running-once_example = running-once {O = ℕ} ℕ 0 (pos 0) "" none ops request_type 7 refl
