-- ===== src/Kernel/Registry/Consistent.antt =====
-- The invariant of `ToolRegistry`: both dictionaries have the same keys, each once, and a definition
-- stands under its own name. Every method keeps it, whether it returns or raises.
use byo_firmware_mcp.Prelude.{
  String, ◌≡◌, refl, sym, ap, ◌∙◌, inl, inr, Bool, true, false, Option, none, some, List, [], ◌∷◌,
  ◌==◌, string_eq, arith, eq_iff, Bool-cases, Option-cases, some-injective, none-ne-some,
}
use byo_firmware_mcp.Prelude.Dict.{
  Dict, get, put, pop, get-put, get-pop, Unique, Unique-put, Unique-pop,
}
use byo_firmware_mcp.Kernel.Registry.{
  ToolDefinition, ToolRegistry, new_registry, bump_if, register, configure, unregister, unlock,
  relock, reset, cleared,
}

pub record IsConsistent (r : ToolRegistry) : Type 0 where
  pub unique : Unique r.definitions
  pub named : (name : String) (d : ToolDefinition) → get r.definitions name ≡ some d → d.name ≡ name
  pub has_boards :
      (name : String) (d : ToolDefinition)
      → get r.definitions name ≡ some d
      → (boards : List String) × (get r.unlocked_boards name ≡ some boards)
  pub has_definition :
      (name : String) (boards : List String)
      → get r.unlocked_boards name ≡ some boards
      → (d : ToolDefinition) × (get r.definitions name ≡ some d)

bump_if-IsConsistent : (b : Bool) (r : ToolRegistry) → IsConsistent r → IsConsistent (bump_if b r)
unfolding bump_if
bump_if-IsConsistent true r c = record {
  unique = c.unique;
  named = c.named;
  has_boards = c.has_boards;
  has_definition = c.has_definition;
}
bump_if-IsConsistent false r c = c

-- New boards for a name that has a definition.
put_boards-IsConsistent :
    (r : ToolRegistry) (name : String) (boards : List String) (d : ToolDefinition)
    → IsConsistent r
    → get r.definitions name ≡ some d
    → IsConsistent (record r { unlocked_boards = put r.unlocked_boards name boards })
put_boards-IsConsistent r name boards d c h = record {
  unique = c.unique;
  named = c.named;
  has_boards = λ n e k. rw get-put (elim (Bool-cases (name == n)) [
    | inl p ↦ (boards, rw p)
    | inr p ↦ let (bs, q) = c.has_boards n e k in (bs, rw p q)
  ]);
  has_definition = λ n bs k. elim (Bool-cases (name == n)) [
    | inl p ↦ (d, rw (← (eq_iff name n).0 p) h)
    | inr p ↦ c.has_definition n bs (rw (get-put, p) at k)
  ];
}

-- A new definition under its name, with boards.
put_both-IsConsistent :
    (r : ToolRegistry) (name : String) (boards : List String) (d : ToolDefinition)
    → IsConsistent r
    → d.name ≡ name
    → IsConsistent (record r {
      definitions = put r.definitions name d;
      unlocked_boards = put r.unlocked_boards name boards;
    })
put_both-IsConsistent r name boards d c h = record {
  unique = Unique-put r.definitions name d c.unique;
  named = λ n e k. elim (Bool-cases (name == n)) [
    | inl p ↦
        let q : some d ≡ some e = rw (get-put, p) at k in
        sym (ap (λ (x : ToolDefinition). x.name) (some-injective q)) ∙ h ∙ (eq_iff name n).0 p
    | inr p ↦ c.named n e (rw (get-put, p) at k)
  ];
  has_boards = λ n e k. rw get-put (elim (Bool-cases (name == n)) [
    | inl p ↦ (boards, rw p)
    | inr p ↦ let (bs, q) = c.has_boards n e (rw (get-put, p) at k) in (bs, rw p q)
  ]);
  has_definition = λ n bs k. rw get-put (elim (Bool-cases (name == n)) [
    | inl p ↦ (d, rw p)
    | inr p ↦ let (e, q) = c.has_definition n bs (rw (get-put, p) at k) in (e, rw p q)
  ]);
}

-- A new definition under its name, which has boards.
put_definition-IsConsistent :
    (r : ToolRegistry) (name : String) (d e : ToolDefinition)
    → IsConsistent r
    → get r.definitions name ≡ some e
    → d.name ≡ name
    → IsConsistent (record r { definitions = put r.definitions name d })
put_definition-IsConsistent r name d e c k h =
    let (bs, q) = c.has_boards name e k in
    let both = put_both-IsConsistent r name bs d c h in
    record {
      unique = both.unique;
      named = both.named;
      has_boards = λ n f x. elim (Bool-cases (name == n)) [
        | inl p ↦ (bs, rw (← (eq_iff name n).0 p) q)
        | inr p ↦ c.has_boards n f (rw (get-put, p) at x)
      ];
      has_definition = λ n cs x. rw get-put (elim (Bool-cases (name == n)) [
        | inl p ↦ (d, rw p)
        | inr p ↦ let (f, y) = c.has_definition n cs x in (f, rw p y)
      ]);
    }

pop_both-IsConsistent :
    (r : ToolRegistry) (name : String)
    → IsConsistent r
    → IsConsistent (record r {
      definitions = pop r.definitions name;
      unlocked_boards = pop r.unlocked_boards name;
    })
pop_both-IsConsistent r name c = record {
  unique = Unique-pop r.definitions name c.unique;
  named = λ n e k. elim (Bool-cases (name == n)) [
    | inl p ↦ absurd (none-ne-some (rw (get-pop, p) at k))
    | inr p ↦ c.named n e (rw (get-pop, p) at k)
  ];
  has_boards = λ n e k. rw get-pop (elim (Bool-cases (name == n)) [
    | inl p ↦ absurd (none-ne-some (rw (get-pop, p) at k))
    | inr p ↦ let (bs, q) = c.has_boards n e (rw (get-pop, p) at k) in (bs, rw p q)
  ]);
  has_definition = λ n bs k. rw get-pop (elim (Bool-cases (name == n)) [
    | inl p ↦ absurd (none-ne-some (rw (get-pop, p) at k))
    | inr p ↦ let (e, q) = c.has_definition n bs (rw (get-pop, p) at k) in (e, rw p q)
  ]);
}

register-IsConsistent :
    (r : ToolRegistry) (name : String) (hidden locked : Bool) (prerequisite : Option String)
    → IsConsistent r
    → IsConsistent (register r name hidden locked prerequisite).1
unfolding register
register-IsConsistent r name hidden locked prerequisite c = elim (Bool-cases (name == "")) [
  | inl p ↦ rw p c
  | inr p ↦ elim (Option-cases (get r.definitions name)) [
    | inl q ↦ rw (p, q) (bump_if-IsConsistent _ _ (put_both-IsConsistent r name [] _ c refl))
    | inr (d, q) ↦ rw (p, q, register) c
  ]
]

unlock-IsConsistent :
    (r : ToolRegistry) (name board_id : String)
    → IsConsistent r
    → IsConsistent (unlock r name board_id).1
unfolding unlock
unlock-IsConsistent r name board_id c = elim (Bool-cases (board_id == "")) [
  | inl p ↦ rw p c
  | inr p ↦ elim (Option-cases (get r.definitions name)) [
    | inl q ↦ rw (p, q) c
    | inr (d, q) ↦ elim (Bool-cases d.locked_by_default) [
      | inl l ↦ rw (p, q, l) (bump_if-IsConsistent _ _ (put_boards-IsConsistent r name _ d c q))
      | inr l ↦ rw (p, q, l) c
    ]
  ]
]

relock-IsConsistent :
    (r : ToolRegistry) (name board_id : String)
    → IsConsistent r
    → IsConsistent (relock r name board_id).1
unfolding relock
relock-IsConsistent r name board_id c = elim (Option-cases (get r.definitions name)) [
  | inl q ↦ rw (q, relock) c
  | inr (d, q) ↦ rw (q, relock) (bump_if-IsConsistent _ _ (put_boards-IsConsistent r name _ d c q))
]

unregister-IsConsistent :
    (r : ToolRegistry) (name : String) → IsConsistent r → IsConsistent (unregister r name).1
unfolding unregister
unregister-IsConsistent r name c = elim (Option-cases (get r.definitions name)) [
  | inl q ↦ rw (q, unregister) c
  | inr (d, q) ↦ rw (q, unregister) (bump_if-IsConsistent _ _ (pop_both-IsConsistent r name c))
]

configure-IsConsistent :
    (r : ToolRegistry) (name : String) (hidden locked : Bool) (prerequisite : Option String)
    → IsConsistent r
    → IsConsistent (configure r name hidden locked prerequisite).1
unfolding configure
configure-IsConsistent r name hidden locked prerequisite c =
    elim (Option-cases (get r.definitions name)) [
      | inl q ↦ rw (q, configure) c
      | inr (d, q) ↦ elim (Bool-cases locked) [
        | inl l ↦
            rw (q, configure, l)
              (bump_if-IsConsistent _ _
                (put_definition-IsConsistent r name _ d c q (c.named name d q)))
        | inr l ↦
            rw (q, configure, l)
              (bump_if-IsConsistent _ _ (put_both-IsConsistent r name [] _ c (c.named name d q)))
      ]
    ]

pub get-cleared :
    (m : Dict String (List String)) (n : String)
    → get (cleared m) n ≡ (elim (get m n) [ none ↦ none | some bs ↦ some [] ])
unfolding cleared get
get-cleared [] n = refl
get-cleared ((i, bs) ∷ m) n = elim (Bool-cases (i == n)) [
  | inl p ↦ rw p
  | inr p ↦ rw p (get-cleared m n)
]

reset-IsConsistent : (r : ToolRegistry) → IsConsistent r → IsConsistent (reset r)
unfolding reset
reset-IsConsistent r c = bump_if-IsConsistent _ _ (record {
  unique = c.unique;
  named = c.named;
  has_boards =
      λ n d k. let (bs, q) = c.has_boards n d k in ([], get-cleared r.unlocked_boards n ∙ (rw q));
  has_definition = λ n bs k. elim (Option-cases (get r.unlocked_boards n)) [
    | inl q ↦ ground (arith, get-cleared r.unlocked_boards n)
    | inr (cs, q) ↦ c.has_definition n cs q
  ];
})

-- One call of a method that changes the registry.
pub data Call : Type 0 where
  register_call configure_call : String → Bool → Bool → Option String → Call
  unregister_call : String → Call
  unlock_call relock_call : String → String → Call
  reset_call : Call

unfoldable pub apply : ToolRegistry → Call → ToolRegistry
apply r (register_call name hidden locked p) = (register r name hidden locked p).1
apply r (configure_call name hidden locked p) = (configure r name hidden locked p).1
apply r (unregister_call name) = (unregister r name).1
apply r (unlock_call name board_id) = (unlock r name board_id).1
apply r (relock_call name board_id) = (relock r name board_id).1
apply r reset_call = reset r

unfoldable pub run : ToolRegistry → List Call → ToolRegistry
run r [] = r
run r (call ∷ calls) = run (apply r call) calls

pub apply-IsConsistent :
    (r : ToolRegistry) (call : Call) → IsConsistent r → IsConsistent (apply r call)
unfolding apply
apply-IsConsistent r (register_call name h l p) c = register-IsConsistent r name h l p c
apply-IsConsistent r (configure_call name h l p) c = configure-IsConsistent r name h l p c
apply-IsConsistent r (unregister_call name) c = unregister-IsConsistent r name c
apply-IsConsistent r (unlock_call name board_id) c = unlock-IsConsistent r name board_id c
apply-IsConsistent r (relock_call name board_id) c = relock-IsConsistent r name board_id c
apply-IsConsistent r reset_call c = reset-IsConsistent r c

new-IsConsistent : IsConsistent new_registry
unfolding get Unique
new-IsConsistent = record {
  unique = tt;
  named = λ n d k. absurd (none-ne-some k);
  has_boards = λ n d k. absurd (none-ne-some k);
  has_definition = λ n bs k. absurd (none-ne-some k);
}

run_keeps : (r : ToolRegistry) (calls : List Call) → IsConsistent r → IsConsistent (run r calls)
unfolding run
run_keeps r [] c = c
run_keeps r (x ∷ xs) c = run_keeps (apply r x) xs (apply-IsConsistent r x c)

-- Whatever calls were made since the start, the registry is consistent: both dictionaries have
-- the same keys, so that no lookup of a registered tool's boards can fail.
pub run-IsConsistent : (calls : List Call) → IsConsistent (run new_registry calls)
run-IsConsistent calls = run_keeps new_registry calls new-IsConsistent
