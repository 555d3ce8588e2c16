-- ===== src/Dag/Cycle/Complete.antt =====
-- The search finds a cycle of a graph unless it finishes every node.
use distributed_job_orchestr.Common.{
  ℕ, ◌+◌, ◌<◌, ◌≡◌, ◌≢◌, ◌⊎◌, refl, subst, ◌∙◌, true, List, [], ◌∷◌, some, arith, ◌==◌, Bool-cases,
  inl, inr,
}
use distributed_job_orchestr.Common.Dict.{put}
use distributed_job_orchestr.Dag.{Dag, ok, has, has_key, items}
use distributed_job_orchestr.Dag.Mirror.{IsDag}
use distributed_job_orchestr.Dag.Cycle.{
  Colour, white, grey, black, colour, nth, Outcome, explored, start_search, search_all,
}
use distributed_job_orchestr.Dag.Cycle.Rule.{colour-put, SearchRule, start_rule}
use distributed_job_orchestr.Dag.Cycle.Walks.{IsCycle}
use distributed_job_orchestr.Dag.Cycle.Sound.{Grey, Sound, start_search-Sound, Outcome-cases}
use distributed_job_orchestr.Dag.Cycle.Cost.{white_cost, Ends, start_search-Ends}
use distributed_job_orchestr.Dag.Cycle.Finish.{
  Covered, GreyStack, Finished, finished-leave, finished-enter, enter-black, take-all, has-take,
  Under-later, leave-Covered, put-GreyStack, white-away,
}

-- What the loop keeps: the black nodes are finished, and the stack's entries have passed only
-- finished children.
record Explores (g : Dag) (base : List (ℕ × Colour)) (fuel : ℕ) (colours : List (ℕ × Colour))
    (stack : List (ℕ × ℕ)) (path : List ℕ) : Type 0 where
  done : List ℕ
  finished : Finished g base colours done
  covered : Covered g colours stack
  on_stack : GreyStack colours stack

abbrev pub Explored : Dag → List (ℕ × Colour) → Outcome → Type 0
Explored g base (explored colours) = (done : List ℕ) × Finished g base colours done
Explored g base _ = Unit

passed :
    (g : Dag) (colours : List (ℕ × Colour)) (n i child : ℕ) (stack : List (ℕ × ℕ))
    → nth i (items n g.children) ≡ some child
    → colour child colours ≡ black
    → Covered g colours ((n, i) ∷ stack)
    → Covered g colours ((n, i + 1) ∷ stack)
passed g colours n i child stack at dark v = (
  λ c h. elim (Bool-cases (child == c)) [
    | inl hit ↦ let same : child ≡ c = ground (arith, hit) in rw (← same) dark
    | inr miss ↦ v.0 c (ground (arith, h, miss, has-take c i child (items n g.children) at))
  ],
  v.1,
)

entered :
    (g : Dag) (colours : List (ℕ × Colour)) (n i child : ℕ) (stack : List (ℕ × ℕ))
    → nth i (items n g.children) ≡ some child
    → colour child colours ≡ white
    → Covered g colours ((n, i) ∷ stack)
    → Covered g (put child grey colours) ((child, 0) ∷ (n, i + 1) ∷ stack)
entered g colours n i child stack at pale v =
    let later : (c : ℕ) → colour c colours ≡ black → colour c (put child grey colours) ≡ black =
      λ c h. enter-black c child colours pale h in
    (
      λ c h. absurd (ground (arith, h)),
      (
        λ c h. elim (Bool-cases (child == c)) [
          | inl hit ↦ inr (ground (arith, hit))
          | inr miss ↦ inl (
              later c (v.0 c (ground (arith, h, miss, has-take c i child (items n g.children) at))))
        ],
        Under-later g colours (put child grey colours) n stack later v.1,
      ),
    )

Explored-rule :
    (g : Dag) (base : List (ℕ × Colour)) → SearchRule g (Explores g base) (Explored g base)
Explored-rule g base = record {
  starved = λ colours stack path v. tt;
  finish = λ fuel colours path v. (v.done, v.finished);
  leave = λ fuel n i colours stack path v last.
      let whole = take-all i (items n g.children) last in
      record {
        done = n ∷ v.done;
        finished =
            finished-leave g base colours v.done n v.finished v.on_stack.0
              (λ c h. v.covered.0 c (rw whole h));
        covered = leave-Covered g colours n stack v.covered.1;
        on_stack = put-GreyStack colours n black stack v.on_stack.1 v.on_stack.2;
      };
  back = λ fuel n i child colours stack path v at is_grey. tt;
  enter = λ fuel n i child colours stack path v at pale.
      let away = white-away colours child ((n, i) ∷ stack) pale v.on_stack in
      record {
        done = v.done;
        finished = finished-enter g base colours v.done child v.finished pale;
        covered = entered g colours n i child stack at pale v.covered;
        on_stack = (
          ground (arith, colour-put child child grey colours),
          away,
          put-GreyStack colours child grey ((n, i) ∷ stack) away v.on_stack,
        );
      };
  skip = λ fuel n i child colours stack path v at dark. record {
    done = v.done;
    finished = v.finished;
    covered = passed g colours n i child stack at dark v.covered;
    on_stack = v.on_stack;
  };
}

seen_before :
    (x start : ℕ) (colours : List (ℕ × Colour))
    → colour start colours ≢ white
    → colour x colours ≡ white
    → colour x (put start grey colours) ≢ white
    → ⊥
seen_before x start colours seen e h = elim (Bool-cases (start == x)) [
  | inl hit ↦ let same : start ≡ x = ground (arith, hit) in seen (rw same e)
  | inr miss ↦ h (ground (arith, miss, e, colour-put x start grey colours))
]

-- A search that explores leaves finished nodes, and the colour of the start is not white.
pub start_search-Explored :
    (fuel : ℕ) (g : Dag) (colours : List (ℕ × Colour)) (start : ℕ) (done : List ℕ)
    → Finished g [] colours done
    → Explored g (put start grey colours) (start_search fuel g colours start)
start_search-Explored fuel g colours start done v =
    start_rule (Explored-rule g (put start grey colours)) fuel colours start
      (λ seen. (
        done,
        record {
          ordered = v.ordered;
          once = v.once;
          black_done = v.black_done;
          done_black = v.done_black;
          kept = λ x h e. seen_before x start colours seen e h;
        },
      ))
      (λ pale.
        let entering = finished-enter g [] colours done start v pale in
        record {
          done = done;
          finished = record {
            ordered = entering.ordered;
            once = entering.once;
            black_done = entering.black_done;
            done_black = entering.done_black;
            kept = λ x h. h;
          };
          covered = (λ c h. absurd (ground (arith, h)), tt);
          on_stack = (ground (arith, colour-put start start grey colours), refl, tt);
        })

-- The colours after some starts: nothing is grey, the black nodes are finished, and no start is
-- white.
pub record Settled (g : Dag) (colours : List (ℕ × Colour)) (starts : List ℕ) : Type 0 where
  pub done : List ℕ
  pub finished : Finished g [] colours done
  pub greys : Grey colours []
  pub seen : (x : ℕ) → has x starts ≡ true → colour x colours ≢ white

Settled-next :
    (g : Dag) (colours colours' : List (ℕ × Colour)) (starts : List ℕ) (start : ℕ) (done : List ℕ)
    → Settled g colours starts
    → Grey colours' []
    → Finished g (put start grey colours) colours' done
    → Settled g colours' (start ∷ starts)
Settled-next g colours colours' starts start done v greys f = record {
  done = done;
  finished = record {
    ordered = f.ordered;
    once = f.once;
    black_done = f.black_done;
    done_black = f.done_black;
    kept = λ x h. absurd (h refl);
  };
  greys = greys;
  seen = λ x h. f.kept x (started x h);
}
  where
    started : (x : ℕ) → has x (start ∷ starts) ≡ true → colour x (put start grey colours) ≢ white
    started x h e = ground (arith, h, e, v.seen x, colour-put x start grey colours)

-- With rounds for all white nodes the search over the starts finds a cycle, or every start is
-- finished in the end.
pub search_all-cases :
    (fuel : ℕ) (g : Dag) (colours : List (ℕ × Colour)) (seen starts : List ℕ)
    → IsDag g
    → ((x : ℕ) → has x starts ≡ true → has_key x g.children ≡ true)
    → white_cost g.children colours < fuel
    → Settled g colours seen
    → ((c : List ℕ) × (search_all fuel g colours starts ≡ ok c) × IsCycle g c)
      ⊎ ((colours' : List (ℕ × Colour)) × (seen' : List ℕ) × ((x : ℕ)
            → (has x seen ≡ true) ⊎ (has x starts ≡ true)
            → has x seen' ≡ true)
          × Settled g colours' seen')
unfolding search_all
search_all-cases fuel g colours seen [] d k h v =
    inr (colours, seen, (λ x e. elim e [ inl a ↦ a | inr b ↦ absurd (ground (arith, b)) ]), v)
search_all-cases fuel g colours seen (start ∷ starts) d k h v =
    let sound = start_search-Sound fuel g colours start v.greys in
    let ends = start_search-Ends fuel g colours start d (k start (ground arith)) h in
    let explores = start_search-Explored fuel g colours start v.done v.finished in
    elim (Outcome-cases (start_search fuel g colours start)) [
      | inl (cycle, f) ↦
          let at : search_all fuel g colours (start ∷ starts) ≡ ok cycle =
            rw (f, search_all) refl in
          inl (cycle, at, subst (Sound g) f sound)
      | inr (inl (colours', f)) ↦
          let at : search_all fuel g colours (start ∷ starts) ≡ search_all fuel g colours' starts =
            rw (f, search_all) refl in
          let (done, finished) = subst (Explored g (put start grey colours)) f explores in
          let less = subst (Ends g (white_cost g.children colours)) f ends in
          let next =
            Settled-next g colours colours' seen start done v (subst (Sound g) f sound) finished in
          elim (search_all-cases fuel g colours' (start ∷ seen) starts d
            (λ x e. k x (ground (arith, e))) (omega (arith, less, h)) next) [
              | inl (c, e, cycle) ↦ inl (c, at ∙ e, cycle)
              | inr (colours'', seen', all_seen, settled) ↦
                  inr (colours'', seen', (λ x e. all_seen x (ground (arith, e))), settled)
            ]
      | inr (inr f) ↦ absurd (subst (Ends g (white_cost g.children colours)) f ends)
    ]
