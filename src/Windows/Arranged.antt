-- ===== src/Windows/Arranged.antt =====
-- Whatever the mouse does, no window is lost or doubled, and exactly one is active.
use mathlib.Core.List.{Perm, perm_middle}
use mathlib.Core.List.Perm
use package.rustix_os.Prelude.{
  ℕ, zero, suc, ◌+◌, ◌<◌, ◌≡◌, refl, ap, arith, Bool, if◌then◌else◌, if_lem, Option-cases, inl, inr,
  Option, none, some, List, [], ◌∷◌, ◌++◌, length, length-append, length-map, map,
}
use package.rustix_os.Prelude.Int.{ℤ, ◌-ℤ◌}
use package.rustix_os.Outcome.{Yields}
use package.rustix_os.Windows.{
  Window, WindowManager, new, take_window, topmost, in_title, in_body, dragged, deactivate,
  activate, Run, drag, click_body, click, handle_mouse,
}

abbrev pub ids : List Window → List ℕ
ids [] = []
ids (w ∷ ws) = w.id ∷ ids ws

-- How many windows are active.
abbrev pub actives : List Window → ℕ
actives [] = 0
actives (w ∷ ws) = (if w.is_active then 1 else 0) + actives ws

abbrev pub InRange : ℕ → Option ℕ → Type 0
InRange n none = Unit {0}
InRange n (some i) = i < n

pub record IsArranged (wm : WindowManager) : Type 0 where
  pub grabbed : InRange (length wm.windows) wm.active_window_idx
  pub one_active : actives wm.windows ≡ 1

-- The call returns; the windows are the same, and in order.
pub record Handled (wm : WindowManager) (r : Run) : Type 0 where
  pub returned : Yields (λ (u : Unit {0}). Unit {0}) r.0
  pub same : Perm (ids wm.windows) (ids r.1.windows)
  pub arranged : IsArranged r.1

record Taken (ws : List Window) (p : Window × List Window) : Type 0 where
  all : Perm (ids ws) (p.0.id ∷ ids p.1)
  count : length ws ≡ suc (length p.1)
  active : actives ws ≡ (if p.0.is_active then 1 else 0) + actives p.1

take_window-Taken :
    (idx : ℕ) (ws : List Window)
    → idx < length ws
    → (p : Window × List Window) × (take_window idx ws ≡ some p) × Taken ws p
unfolding take_window
take_window-Taken idx [] h = absurd (omega arith)
take_window-Taken zero (w ∷ ws) h =
    ((w, ws), refl, record { all = Perm.refl (w.id ∷ ids ws); active = refl; count = refl })
take_window-Taken (suc idx) (w ∷ ws) h =
    let t = take_window-Taken idx ws (omega arith) in
    (
      (t.0.0, w ∷ t.0.1),
      rw (t.1, take_window) refl,
      record {
        all = Perm.trans (Perm.cons w.id t.2.all) (Perm.swap t.0.0.id w.id (ids t.0.1));
        active = omega (arith, t.2.active);
        count = ap suc t.2.count;
      },
    )

topmost-InRange : (p : Window → Bool) (ws : List Window) → InRange (length ws) (topmost p ws)
unfolding topmost
topmost-InRange p [] = tt
topmost-InRange p (w ∷ ws) = elim (Option-cases (topmost p ws)) [
  | inl e ↦ rw (e, topmost) (if_lem (InRange (length (w ∷ ws))) (p w) (omega arith) tt)
  | inr (i, e) ↦
      let below : i < length ws = rw e at (topmost-InRange p ws) in
      rw (e, topmost) (omega (arith, below))
]

ids-on_top : (ws : List Window) (w : Window) → ids (ws ++ w ∷ []) ≡ ids ws ++ w.id ∷ []
ids-on_top [] w = refl
ids-on_top (v ∷ ws) w = ap (λ t. v.id ∷ t) (ids-on_top ws w)

ids-deactivate : (ws : List Window) → ids (map deactivate ws) ≡ ids ws
ids-deactivate [] = refl
ids-deactivate (v ∷ ws) = ap (λ t. v.id ∷ t) (ids-deactivate ws)

actives-on_top :
    (ws : List Window) (w : Window)
    → actives (ws ++ w ∷ []) ≡ actives ws + (if w.is_active then 1 else 0)
actives-on_top [] w = omega arith
actives-on_top (v ∷ ws) w = omega (arith, actives-on_top ws w)

actives-deactivate : (ws : List Window) → actives (map deactivate ws) ≡ 0
actives-deactivate [] = refl
actives-deactivate (v ∷ ws) = omega (arith, actives-deactivate ws)

append_nothing : (xs : List ℕ) → xs ++ [] ≡ xs
append_nothing [] = refl
append_nothing (x ∷ xs) = ap (λ t. x ∷ t) (append_nothing xs)

-- A window goes to the top.
raised : {xs : List ℕ} (x : ℕ) (r : List ℕ) → Perm xs (x ∷ r) → Perm xs (r ++ x ∷ [])
raised x r h = Perm.trans h (Perm.symm (rw (append_nothing r) at (perm_middle {a = x} r [])))

drag-Handled :
    (mx my : ℤ) (wm : WindowManager) (o : Option ℕ)
    → IsArranged wm
    → InRange (length wm.windows) o
    → Handled wm (drag mx my wm o)
unfolding take_window dragged
drag-Handled mx my wm none h lt = record {
  returned = tt;
  same = Perm.refl (ids wm.windows);
  arranged = h;
}
drag-Handled mx my wm (some idx) h lt =
    let t = take_window-Taken idx wm.windows lt in
    let win = dragged (mx -ℤ wm.drag_offset_x) (my -ℤ wm.drag_offset_y) t.0.0 in
    rw (t.1, drag)
      (record {
        returned = tt;
        same = rw (ids-on_top t.0.1 win) (raised t.0.0.id (ids t.0.1) t.2.all);
        arranged = record {
          grabbed = omega (arith, length-append t.0.1 (win ∷ []));
          one_active = omega (arith, actives-on_top t.0.1 win, t.2.active, h.one_active);
        };
      })

-- What grabbing and focusing have in common.
top_active :
    {ws : List Window} (win : Window) (rest : List Window)
    → Taken ws (win, rest)
    → Perm (ids ws) (ids (map deactivate rest ++ activate win ∷ []))
      × (actives (map deactivate rest ++ activate win ∷ []) ≡ 1)
top_active win rest t = (
  rw (ids-on_top (map deactivate rest) (activate win), ids-deactivate rest)
      (raised win.id (ids rest) t.all),
  omega (arith, actives-on_top (map deactivate rest) (activate win), actives-deactivate rest),
)

click_body-Handled :
    (wm : WindowManager) (o : Option ℕ)
    → IsArranged wm
    → InRange (length wm.windows) o
    → Handled wm (click_body wm o)
unfolding take_window
click_body-Handled wm none h lt = record {
  returned = tt;
  same = Perm.refl (ids wm.windows);
  arranged = h;
}
click_body-Handled wm (some idx) h lt =
    let t = take_window-Taken idx wm.windows lt in
    let top = top_active t.0.0 t.0.1 t.2 in
    let same : length (map deactivate t.0.1 ++ activate t.0.0 ∷ []) ≡ length wm.windows = omega (
      arith,
      length-append (map deactivate t.0.1) (activate t.0.0 ∷ []),
      length-map t.0.1 deactivate,
      t.2.count,
    ) in
    rw (t.1, click_body)
      (record {
        returned = tt;
        same = top.0;
        arranged = record { grabbed = rw same h.grabbed; one_active = top.1 };
      })

click-Handled :
    (mx my : ℤ) (wm : WindowManager) (o : Option ℕ)
    → IsArranged wm
    → InRange (length wm.windows) o
    → Handled wm (click mx my wm o)
unfolding take_window topmost
click-Handled mx my wm none h lt =
    click_body-Handled wm (topmost (in_body mx my) wm.windows) h
      (topmost-InRange (in_body mx my) wm.windows)
click-Handled mx my wm (some idx) h lt =
    let t = take_window-Taken idx wm.windows lt in
    let top = top_active t.0.0 t.0.1 t.2 in
    rw (t.1, click)
      (record {
        returned = tt;
        same = top.0;
        arranged = record {
          grabbed = omega (
            arith,
            length-append (map deactivate t.0.1) (activate t.0.0 ∷ []),
            length-map t.0.1 deactivate,
          );
          one_active = top.1;
        };
      })

-- Whatever the mouse does to windows of which one is active, no call panics, each window is there once,
-- as before, and again exactly one is active.
pub handle_mouse-Handled :
    (mx my : ℤ) (clicked : Bool) (wm : WindowManager)
    → IsArranged wm
    → Handled wm (handle_mouse mx my clicked wm)
unfolding handle_mouse
handle_mouse-Handled mx my clicked wm h =
    if_lem (Handled wm) clicked
      (if_lem (Handled wm) wm.is_dragging (drag-Handled mx my wm wm.active_window_idx h h.grabbed) (
        click-Handled mx my wm (topmost (in_title mx my) wm.windows) h
          (topmost-InRange (in_title mx my) wm.windows)))
      (record {
        returned = tt;
        same = Perm.refl (ids wm.windows);
        arranged = record { grabbed = tt; one_active = h.one_active };
      })

-- The three windows at the start.
pub new-IsArranged : IsArranged new
unfolding new
new-IsArranged = record { grabbed = tt; one_active = refl }
