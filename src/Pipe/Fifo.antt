-- ===== src/Pipe/Fifo.antt =====
-- kernel/pipe.c under any schedule of one process that writes and one that reads, with closes.
use group10os.Prelude.{ℕ, ◌≡◌, refl, sym, ap, ◌∙◌, Bool, true, false, List, [], ◌∷◌, ◌++◌}
use mathlib.Core.Path.{subst}
use mathlib.Core.List.{append_assoc, append-nil}
use group10os.Pipe.{
  Pipe, WriteResult, no_reader, full, stored, ReadResult, eof, empty, got, write_cs, read_cs,
  pipeclose,
}
use group10os.Pipe.Turns.{
  sent_by, received_by, System, look, writer_from, reader_from, Move, writer, reader, closes, step,
  run, starting,
}
use group10os.Pipe.Ring.{IsValid, contents, Writes, write_cs-Writes, Reads, read_cs-Reads}
use group10os.Pipe.Peterson.{Place, outside, raised, testing, comparing, critical, advance}
use group10os.Pipe.Peterson.Exclusion.{
  IsGuarded, initial-IsGuarded, advance-IsGuarded, excludes, advance-leaves0, advance-leaves1,
  advance-keeps0, advance-keeps1,
}

-- What was in the pipe and what went in is what came out and what is left, in order.
pub record Conserves (p q : Pipe) (sent received : List ℕ) : Type 0 where
  pub valid : IsValid q
  pub order : contents p ++ sent ≡ received ++ contents q

Conserves-write :
    (p : Pipe) (ch : ℕ) (r : WriteResult) (p' : Pipe)
    → IsValid p
    → Writes p ch (r, p')
    → Conserves p p' (sent_by ch r) []
Conserves-write p ch no_reader p' v (o, e) = record {
  valid = subst IsValid (sym e) v;
  order = append-nil (contents p) ∙ sym (ap contents e);
}
Conserves-write p ch full p' v (o, u, e) = record {
  valid = subst IsValid (sym e) v;
  order = append-nil (contents p) ∙ sym (ap contents e);
}
Conserves-write p ch stored p' v (o, u, v', e) = record { valid = v'; order = sym e }

Conserves-read :
    (p : Pipe) (r : ReadResult) (p' : Pipe)
    → IsValid p
    → Reads p (r, p')
    → Conserves p p' [] (received_by r)
Conserves-read p eof p' v (o, u, e) = record {
  valid = subst IsValid (sym e) v;
  order = append-nil (contents p) ∙ sym (ap contents e);
}
Conserves-read p empty p' v (o, u, e) = record {
  valid = subst IsValid (sym e) v;
  order = append-nil (contents p) ∙ sym (ap contents e);
}
Conserves-read p (got ch) p' v (e, v') = record { valid = v'; order = append-nil (contents p) ∙ e }

closed-Conserves : (w : Bool) (p : Pipe) → IsValid p → Conserves p (pipeclose p w).1 [] []
unfolding pipeclose
closed-Conserves true p v = record {
  valid = record { nread_uint = v.nread_uint; nwrite_uint = v.nwrite_uint; fits = v.fits };
  order = append-nil (contents p);
}
closed-Conserves false p v = record {
  valid = record { nread_uint = v.nread_uint; nwrite_uint = v.nwrite_uint; fits = v.fits };
  order = append-nil (contents p);
}

-- A task in its critical section sees the pipe as it is.
record Sound (p : Pipe) (s : System) : Type 0 where
  guarded : IsGuarded s.tasks
  whole : Conserves p s.pipe s.sent s.received
  fresh0 : s.tasks.first ≡ critical → s.seen0 ≡ s.pipe
  fresh1 : s.tasks.second ≡ critical → s.seen1 ≡ s.pipe

Conserves-then :
    (p q r : Pipe) (xs ys sent received : List ℕ)
    → Conserves p q xs ys
    → Conserves q r sent received
    → Conserves p r (xs ++ sent) (ys ++ received)
Conserves-then p q r xs ys sent received c d = record {
  valid = d.valid;
  order =
      sym (append_assoc (contents p) xs sent)
      ∙ ap (λ zs. zs ++ sent) c.order
      ∙ append_assoc ys (contents q) sent
      ∙ ap (λ zs. ys ++ zs) d.order
      ∙ sym (append_assoc ys received (contents r));
}

look_lem : (a : Place) (p seen : Pipe) → a ≡ critical → look a p seen ≡ p
look_lem outside p seen e = cc e
look_lem raised p seen e = cc e
look_lem testing p seen e = cc e
look_lem comparing p seen e = cc e
look_lem critical p seen e = refl

module _ (p : Pipe) (s : System) (v : Sound p s) where
  writes-Sound :
      (ch : ℕ)
      → s.tasks.first ≡ critical
      → Sound p (writer_from critical (advance false true s.tasks true) ch s)
  unfolding writer_from
  writes-Sound ch e =
      let (r, q) = write_cs s.seen0 ch in
      let fresh = v.fresh0 e in
      let seen =
        Conserves-write s.seen0 ch r q (subst IsValid (sym fresh) v.whole.valid)
          (write_cs-Writes ch (subst IsValid (sym fresh) v.whole.valid)) in
      let here : Conserves s.pipe q (sent_by ch r) [] =
        subst (λ x. Conserves x q (sent_by ch r) []) fresh seen in
      record {
        guarded = advance-IsGuarded s.tasks true v.guarded;
        whole =
            subst (Conserves p q (s.sent ++ sent_by ch r)) (append-nil s.received)
              (Conserves-then p s.pipe q s.sent s.received (sent_by ch r) [] v.whole here);
        fresh0 = λ c. absurd (advance-leaves0 s.tasks e c);
        fresh1 = λ c. absurd (excludes s.tasks v.guarded e (sym (advance-keeps0 s.tasks) ∙ c));
      }

  reads-Sound :
      s.tasks.second ≡ critical
      → Sound p (reader_from critical (advance false true s.tasks false) s)
  unfolding reader_from
  reads-Sound e =
      let (r, q) = read_cs s.seen1 in
      let fresh = v.fresh1 e in
      let seen =
        Conserves-read s.seen1 r q (subst IsValid (sym fresh) v.whole.valid)
          (read_cs-Reads (subst IsValid (sym fresh) v.whole.valid)) in
      let here : Conserves s.pipe q [] (received_by r) =
        subst (λ x. Conserves x q [] (received_by r)) fresh seen in
      record {
        guarded = advance-IsGuarded s.tasks false v.guarded;
        whole =
            subst (λ xs. Conserves p q xs (s.received ++ received_by r)) (append-nil s.sent)
              (Conserves-then p s.pipe q s.sent s.received [] (received_by r) v.whole here);
        fresh0 = λ c. absurd (excludes s.tasks v.guarded (sym (advance-keeps1 s.tasks) ∙ c) e);
        fresh1 = λ c. absurd (advance-leaves1 s.tasks e c);
      }

  looks0-Sound :
      let t = advance false true s.tasks true in
      Sound p (record s { tasks = t; seen0 = look t.first s.pipe s.seen0 })
  looks0-Sound = record {
    guarded = advance-IsGuarded s.tasks true v.guarded;
    whole = v.whole;
    fresh0 = look_lem (advance false true s.tasks true).first s.pipe s.seen0;
    fresh1 = λ c. v.fresh1 (sym (advance-keeps0 s.tasks) ∙ c);
  }

  looks1-Sound :
      let t = advance false true s.tasks false in
      Sound p (record s { tasks = t; seen1 = look t.second s.pipe s.seen1 })
  looks1-Sound = record {
    guarded = advance-IsGuarded s.tasks false v.guarded;
    whole = v.whole;
    fresh0 = λ c. v.fresh0 (sym (advance-keeps1 s.tasks) ∙ c);
    fresh1 = look_lem (advance false true s.tasks false).second s.pipe s.seen1;
  }

  writer_from-Sound :
      (ch : ℕ) (a : Place)
      → s.tasks.first ≡ a
      → Sound p (writer_from a (advance false true s.tasks true) ch s)
  unfolding writer_from
  writer_from-Sound ch outside e = looks0-Sound
  writer_from-Sound ch raised e = looks0-Sound
  writer_from-Sound ch testing e = looks0-Sound
  writer_from-Sound ch comparing e = looks0-Sound
  writer_from-Sound ch critical e = writes-Sound ch e

  reader_from-Sound :
      (a : Place)
      → s.tasks.second ≡ a
      → Sound p (reader_from a (advance false true s.tasks false) s)
  unfolding reader_from
  reader_from-Sound outside e = looks1-Sound
  reader_from-Sound raised e = looks1-Sound
  reader_from-Sound testing e = looks1-Sound
  reader_from-Sound comparing e = looks1-Sound
  reader_from-Sound critical e = reads-Sound e

  -- Every step of the writer or the reader and every close keeps what is known.
  step-Sound : (m : Move) → Sound p (step s m)
  unfolding step
  step-Sound (writer ch) = writer_from-Sound ch s.tasks.first refl
  step-Sound reader = reader_from-Sound s.tasks.second refl
  step-Sound (closes writable) =
      let c = closed-Conserves writable s.pipe v.whole.valid in
      let both =
        Conserves-then p s.pipe (pipeclose s.pipe writable).1 s.sent s.received [] [] v.whole c in
      record {
        guarded = v.guarded;
        whole =
            subst (λ xs. Conserves p (pipeclose s.pipe writable).1 xs s.received)
              (append-nil s.sent)
              (subst (Conserves p (pipeclose s.pipe writable).1 (s.sent ++ []))
                (append-nil s.received) both);
        fresh0 = λ e. ap (λ x. (pipeclose x writable).1) (v.fresh0 e);
        fresh1 = λ e. ap (λ x. (pipeclose x writable).1) (v.fresh1 e);
      }

run-Sound : (p : Pipe) (s : System) (ms : List Move) → Sound p s → Sound p (run s ms)
unfolding run
run-Sound p s [] v = v
run-Sound p s (m ∷ ms) v = run-Sound p (step s m) ms (step-Sound p s v m)

starting-Sound : (p : Pipe) → IsValid p → Sound p (starting p)
starting-Sound p v = record {
  guarded = initial-IsGuarded;
  whole = record { valid = v; order = append-nil (contents p) };
  fresh0 = λ e. cc e;
  fresh1 = λ e. cc e;
}

-- Where one process writes to a valid pipe and one reads from it, each through Peterson's algorithm, and
-- ends are closed at any time: for every schedule of their steps, though what is done in a critical
-- section is done to the pipe as it was at its start, the bytes come out in the order in which they
-- went in, none twice and none lost, and the pipe stays valid.
pub run-Conserves :
    (p : Pipe) (ms : List Move)
    → IsValid p
    → let s = run (starting p) ms in Conserves p s.pipe s.sent s.received
run-Conserves p ms v = (run-Sound p (starting p) ms (starting-Sound p v)).whole
