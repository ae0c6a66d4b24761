-- ===== src/Daemon/Monitor/Reports.antt =====
-- The name of the distribution, the counts of the workers, and the text of a duration.
use nssh.Base.{ℕ, ◌+◌, ◌*◌, ◌/◌, ◌≤◌, ◌<◌, ◌≡◌, refl, sym, ap, ◌∙◌, arith, Bool-cases, inl, inr}
use nssh.Base.{none, some, List, [], ◌∷◌, ◌++◌, All, le→leb, lt→leb}
use nssh.Base.Int.{pos}
use nssh.Base.Text.{String, ◌<>◌}
use nssh.Config.{Stdlib}
use nssh.Daemon.Worker.{WorkerInfo}
use nssh.Daemon.Monitor.{Words, distro_of, name_line, count_workers, is_online, format_stable}

-- The first line with PRETTY_NAME gives the name, whatever NAME says.
distro_of_pretty :
    (words : Words) (before after : List String) (line rest distro : String)
    → All (λ l. words.strip_prefix "PRETTY_NAME=" l ≡ none) before
    → words.strip_prefix "PRETTY_NAME=" line ≡ some rest
    → distro_of words (before ++ line ∷ after) distro ≡ words.trim_quotes rest
unfolding distro_of
distro_of_pretty words [] after line rest distro h e = rw e refl
distro_of_pretty words (l ∷ before) after line rest distro (p, h) e =
    rw p (distro_of_pretty words before after line rest (name_line words l distro) h e)

-- Every worker is counted once.
online-add-offline :
    (std : Stdlib) (now : ℕ) (ps : List WorkerInfo)
    → (count_workers std now ps).online + (count_workers std now ps).offline
      ≡ (count_workers std now ps).total
unfolding count_workers
online-add-offline std now [] = refl
online-add-offline std now (p ∷ ps) = elim (Bool-cases (is_online p)) [
  | inl up ↦ rw up (omega (arith, online-add-offline std now ps))
  | inr down ↦ rw down (omega (arith, online-add-offline std now ps))
]

in_months :
    (std : Stdlib) (s : ℕ)
    → 2_592_000 ≤ s
    → s < 31_536_000
    → format_stable std s ≡ std.itoa (pos (s / 2_592_000)) <> "m"
unfolding format_stable
in_months std s low high = rw (lt→leb 31_536_000 s high, le→leb 2_592_000 s low) refl

in_minutes :
    (std : Stdlib) (s : ℕ)
    → 60 ≤ s
    → s < 3600
    → format_stable std s ≡ std.itoa (pos (s / 60)) <> "m"
unfolding format_stable
in_minutes std s low high =
    rw
      (
        lt→leb 31_536_000 s (omega arith),
        lt→leb 2_592_000 s (omega arith),
        lt→leb 604_800 s (omega arith),
        lt→leb 86_400 s (omega arith),
        lt→leb 3600 s high,
        le→leb 60 s low,
      )
      refl

-- So many months and so many minutes are printed alike.
pub months_as_minutes :
    (std : Stdlib) (n : ℕ)
    → 1 ≤ n
    → n ≤ 12
    → format_stable std (n * 2_592_000) ≡ format_stable std (n * 60)
months_as_minutes std n low high =
    in_months std (n * 2_592_000) (omega arith) (omega arith)
    ∙ ap (λ k. std.itoa (pos k) <> "m") (omega arith)
    ∙ sym (in_minutes std (n * 60) (omega arith) (omega arith))
