-- ===== src/Demo/Fades.antt =====
-- What the main loop of cart/src/pstv-demo-cart.c shows from one round to the next.
use vita_linux_next.Prelude.{
  ℕ, ◌≡◌, ◌≢◌, ◌⊎◌, refl, ◌∙◌, sym, ap, ==_iff, inl, inr, Bool, true, false, not, List, Option,
  none, some, arith, ◌==◌, if◌then◌else◌, Status, ok, fail, Bool-cases, >>=-eq-some,
}
use vita_linux_next.Runtime.Defs.{Runtime, tick}
use vita_linux_next.Transition.Defs.{
  Transition, begin, advance, sources_need_render, mark_sources_rendered, blend, weight,
}
use vita_linux_next.Input.Actions.{Action, quiet, next, previous, select, back, menu, quit}
use vita_linux_next.Demo.{
  Stage, Outside, on_signals, serve_signal, serve_action, start_fade, draw, present, body, ticked,
  round,
}

-- The fields that everything but the fade and the drawing leaves alone.
record Kept (s t : Stage) : Type 0 where
  same_transition : t.transition ≡ s.transition
  same_displayed : t.displayed_scene ≡ s.displayed_scene
  same_low : t.low ≡ s.low
  same_from : t.low_from ≡ s.low_from
  same_to : t.low_to ≡ s.low_to

Kept-trans : (s t u : Stage) → Kept s t → Kept t u → Kept s u
Kept-trans s t u h k = record {
  same_transition = k.same_transition ∙ h.same_transition;
  same_displayed = k.same_displayed ∙ h.same_displayed;
  same_low = k.same_low ∙ h.same_low;
  same_from = k.same_from ∙ h.same_from;
  same_to = k.same_to ∙ h.same_to;
}

abbrev untouched : (s : Stage) → Kept s s
untouched s = record {
  same_transition = refl;
  same_displayed = refl;
  same_low = refl;
  same_from = refl;
  same_to = refl;
}

serve_signal-Kept : (now : ℕ) (s : Stage) → Kept s (serve_signal now s)
unfolding serve_signal
serve_signal-Kept now s = elim (Bool-cases s.next_scene_requested) [
  | inl e ↦ simp e (record {
    same_transition = refl;
    same_displayed = refl;
    same_low = refl;
    same_from = refl;
    same_to = refl;
  })
  | inr e ↦ simp e (untouched s)
]

abbrev same_show :
    (s : Stage) (r : Runtime) (b : Bool) → Kept s (record s { runtime = r; running = b })
same_show s r b = record {
  same_transition = refl;
  same_displayed = refl;
  same_low = refl;
  same_from = refl;
  same_to = refl;
}

serve_action-Kept : (now : ℕ) (a : Action) (s : Stage) → Kept s (serve_action now a s)
unfolding serve_action
serve_action-Kept now quit s = same_show s s.runtime false
serve_action-Kept now next s = same_show s _ s.running
serve_action-Kept now previous s = same_show s _ s.running
serve_action-Kept now quiet s = untouched s
serve_action-Kept now select s = untouched s
serve_action-Kept now back s = untouched s
serve_action-Kept now menu s = untouched s

ticked-Kept : (s t : Stage) (r : Status × Runtime) → ticked s r ≡ some t → Kept s t
ticked-Kept s t (ok, r) e =
    let same : record s { runtime = r } ≡ t = cc in
    record {
      same_transition = ap (λ (u : Stage). u.transition) (sym same);
      same_displayed = ap (λ (u : Stage). u.displayed_scene) (sym same);
      same_low = ap (λ (u : Stage). u.low) (sym same);
      same_from = ap (λ (u : Stage). u.low_from) (sym same);
      same_to = ap (λ (u : Stage). u.low_to) (sym same);
    }
ticked-Kept s t (fail, r) e = cc

not_left :
    (b : Bool) (out : Option Stage) (t : Stage)
    → (if not b then none else out) ≡ some t
    → out ≡ some t
not_left true out t e = e
not_left false out t e = cc

same_signals : (o : Outside) (s : Stage) → Kept s (on_signals o s)
unfolding on_signals
same_signals o s = record {
  same_transition = refl;
  same_displayed = refl;
  same_low = refl;
  same_from = refl;
  same_to = refl;
}

same_present : (s : Stage) → Kept s (present s)
unfolding present
same_present s = record {
  same_transition = refl;
  same_displayed = refl;
  same_low = refl;
  same_from = refl;
  same_to = refl;
}

-- The stage once the runtime has ticked and the signals and the action are served.
abbrev pub decided : Outside → Stage → Stage
decided o s =
    let noted = on_signals o s in
    serve_action o.start o.action
      (serve_signal o.start (record noted { runtime = (tick noted.runtime o.start).1 }))

ticked-eq :
    (s t : Stage) (r : Status × Runtime) → ticked s r ≡ some t → t ≡ record s { runtime = r.1 }
ticked-eq s t (ok, r) e = cc
ticked-eq s t (fail, r) e = cc

module _ (render : ℕ → ℕ → List ℕ) where
  -- A round is a fade's start and a drawing, between steps that leave both alone.
  round_parts :
      (o : Outside) (s t : Stage)
      → round render o s ≡ some t
      → (v : Stage) × (v ≡ decided o s) × Kept s v × Kept (draw render (start_fade render v)) t
  unfolding round on_signals body present
  round_parts o s t e =
      let noted = on_signals o s in
      let (begun, first, then_) =
        >>=-eq-some (ticked noted (tick noted.runtime o.start))
          (λ begun. ticked (body render o begun) (tick (body render o begun).runtime o.end))
          (not_left noted.running _ t e) in
      let v = serve_action o.start o.action (serve_signal o.start begun) in
      (
        v,
        ap (λ b. serve_action o.start o.action (serve_signal o.start b))
            (ticked-eq noted begun _ first),
        Kept-trans s begun v
            (Kept-trans s noted begun (same_signals o s) (ticked-Kept noted begun _ first))
            (Kept-trans begun (serve_signal o.start begun) v (serve_signal-Kept o.start begun)
              (serve_action-Kept o.start o.action (serve_signal o.start begun))),
        Kept-trans (draw render (start_fade render v)) (body render o begun) t
            (same_present (draw render (start_fade render v)))
            (ticked-Kept (body render o begun) t _ then_),
      )

  start_fade_active : (v : Stage) → v.transition.active ≡ true → start_fade render v ≡ v
  unfolding start_fade
  start_fade_active v active = elim (Bool-cases (v.runtime.scene_index == v.displayed_scene)) [
    | inl e ↦ simp (e, active) refl
    | inr e ↦ simp (e, active) refl
  ]

  drawn_fade :
      (v : Stage)
      → v.transition.active ≡ true
      → draw render (start_fade render v) ≡ record v {
        low = blend v.low_from v.low_to v.transition.elapsed_frames;
        transition = advance v.transition;
        displayed_scene =
            if (advance v.transition).active
            then v.displayed_scene
            else (advance v.transition).to_scene;
      }
  drawn_fade v active =
      ap (draw render) (start_fade_active v active) ∙ unfold draw in simp active refl

  -- A fade that is under way is never disturbed: whatever signals and actions arrive and whatever
  -- the clock says, a round that does not leave the loop shows the next blend of the two frames
  -- that were sampled at its start and moves the fade on by one frame, and the scene displayed
  -- becomes the target exactly when the fade ends.
  pub fade_undisturbed :
      (o : Outside) (s t : Stage)
      → round render o s ≡ some t
      → s.transition.active ≡ true
      → (t.low ≡ blend s.low_from s.low_to s.transition.elapsed_frames)
        × (t.low_from ≡ s.low_from)
        × (t.low_to ≡ s.low_to)
        × (t.transition ≡ advance s.transition)
        × (t.displayed_scene ≡ (
            if (advance s.transition).active
            then s.displayed_scene
            else (advance s.transition).to_scene))
  fade_undisturbed o s t e active =
      let (v, known, before, after) = round_parts o s t e in
      let d = drawn_fade v (ap (λ (x : Transition). x.active) before.same_transition ∙ active) in
      grind (arith, before, after, d)

  drawn_same :
      (v : Stage)
      → v.transition.active ≡ false
      → (v.runtime.scene_index == v.displayed_scene) ≡ true
      → draw render (start_fade render v)
        ≡ record v { low = render v.displayed_scene v.runtime.frame }
  unfolding draw start_fade
  drawn_same v idle e = simp (e, idle) refl

  -- A fade that begins is drawn once, at the weight 0.
  drawn_new :
      (v : Stage)
      → v.transition.active ≡ false
      → (v.runtime.scene_index == v.displayed_scene) ≡ false
      → draw render (start_fade render v) ≡ record v {
        low = render v.displayed_scene v.runtime.frame;
        low_from = render v.displayed_scene v.runtime.frame;
        low_to = render v.runtime.scene_index v.runtime.frame;
        transition = record {
          from_scene = v.displayed_scene;
          to_scene = v.runtime.scene_index;
          elapsed_frames = 1;
          active = true;
          sources_ready = true;
        };
      }
  unfolding draw start_fade begin sources_need_render mark_sources_rendered advance blend weight
  drawn_new v idle e =
      let d : (v.displayed_scene == v.runtime.scene_index) ≡ false = ground (arith, e) in
      simp (e, d, idle) refl

  -- What a round makes of the fade: nothing, if the runtime has chosen the scene that is displayed,
  -- and otherwise a new one, of which a first frame has been shown.
  abbrev pub FadeAfter : Runtime → Stage → Stage → Type 0
  FadeAfter r s t =
      (r.scene_index ≡ s.displayed_scene) × (t.transition ≡ s.transition)
      ⊎ (r.scene_index ≢ s.displayed_scene)
        × (t.low_from ≡ t.low)
        × (t.low_to ≡ render r.scene_index r.frame)
        × (t.transition ≡ record {
          from_scene = s.displayed_scene;
          to_scene = r.scene_index;
          elapsed_frames = 1;
          active = true;
          sources_ready = true;
        })

  steady_parts :
      (v s t : Stage)
      → v.transition.active ≡ false
      → Kept s v
      → Kept (draw render (start_fade render v)) t
      → (t.low ≡ render s.displayed_scene v.runtime.frame)
        × (t.displayed_scene ≡ s.displayed_scene)
        × FadeAfter v.runtime s t
  steady_parts v s t idle before after =
      elim (Bool-cases (v.runtime.scene_index == v.displayed_scene)) [
        | inl e ↦
            (let d = drawn_same v idle e in
              let k = rw d at after in
              let same = (==_iff _ _).0 e in
              (
                k.same_low ∙ ap (λ (n : ℕ). render n v.runtime.frame) before.same_displayed,
                k.same_displayed ∙ before.same_displayed,
                inl (same ∙ before.same_displayed, k.same_transition ∙ before.same_transition),
              ))
        | inr e ↦
            (let d = drawn_new v idle e in
              let k = rw d at after in
              let differs : v.runtime.scene_index ≢ v.displayed_scene = ground (arith, e) in
              let shown = before.same_displayed in
              (
                k.same_low ∙ ap (λ (n : ℕ). render n v.runtime.frame) shown,
                k.same_displayed ∙ shown,
                inr (
                  rw shown at differs,
                  k.same_from ∙ sym k.same_low,
                  k.same_to,
                  k.same_transition ∙ (λ i. record {
                    from_scene = shown i;
                    to_scene = v.runtime.scene_index;
                    elapsed_frames = 1;
                    active = true;
                    sources_ready = true;
                  }),
                ),
              ))
      ]

  -- No scene is cut in: a round that does not leave the loop and finds no fade under way shows the
  -- scene that is displayed, at the runtime's frame. If the runtime has chosen that scene no fade
  -- begins. If it has chosen another one, a fade to that one begins: its first frame is the one shown,
  -- from which it starts, its target is drawn at the same frame, and one of its steps is done.
  pub steady_shows :
      (o : Outside) (s t : Stage)
      → round render o s ≡ some t
      → s.transition.active ≡ false
      → (t.low ≡ render s.displayed_scene (decided o s).runtime.frame)
        × (t.displayed_scene ≡ s.displayed_scene)
        × FadeAfter (decided o s).runtime s t
  steady_shows o s t e idle =
      let (v, known, before, after) = round_parts o s t e in
      rw known at (
        steady_parts v s t (ap (λ (x : Transition). x.active) before.same_transition ∙ idle) before
          after)
