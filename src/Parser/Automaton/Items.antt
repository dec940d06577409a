-- ===== src/Parser/Automaton/Items.antt =====
-- What each state of the automaton stands for, as the rules tell it: a certificate that
-- Automaton.Checked compares with the tables.
use th_lang.Base.{ℕ, List, [], ◌∷◌}

-- By state: the rules that are underway there, each with how many of its symbols have been read.
unfoldable pub underway : List (List (ℕ × ℕ))
underway =
    []
    ∷ ((61, 1) ∷ [])
    ∷ ((30, 1) ∷ [])
    ∷ ((29, 1) ∷ [])
    ∷ ((22, 1) ∷ (64, 1) ∷ (65, 1) ∷ [])
    ∷ ((14, 1) ∷ (15, 1) ∷ [])
    ∷ ((48, 1) ∷ (49, 1) ∷ (50, 1) ∷ [])
    ∷ ((47, 1) ∷ [])
    ∷ ((46, 1) ∷ [])
    ∷ ((57, 1) ∷ [])
    ∷ ((31, 1) ∷ [])
    ∷ ((68, 1) ∷ (69, 1) ∷ [])
    ∷ ((17, 1) ∷ [])
    ∷ ((18, 1) ∷ [])
    ∷ ((19, 1) ∷ [])
    ∷ ((1, 1) ∷ [])
    ∷ ((2, 1) ∷ (5, 1) ∷ (6, 1) ∷ (7, 1) ∷ [])
    ∷ ((8, 1) ∷ [])
    ∷ ((16, 1) ∷ (23, 1) ∷ (24, 1) ∷ (25, 1) ∷ (26, 1) ∷ (27, 1) ∷ (28, 1) ∷ [])
    ∷ ((20, 1) ∷ [])
    ∷ ((11, 1) ∷ [])
    ∷ ((10, 1) ∷ [])
    ∷ ((9, 1) ∷ [])
    ∷ ((12, 1) ∷ [])
    ∷ ((13, 1) ∷ [])
    ∷ ((51, 1) ∷ (52, 1) ∷ (56, 1) ∷ [])
    ∷ ((63, 1) ∷ [])
    ∷ ((62, 1) ∷ [])
    ∷ ((21, 1) ∷ (32, 1) ∷ (45, 1) ∷ [])
    ∷ ((22, 1) ∷ [])
    ∷ ((69, 1) ∷ [])
    ∷ ((23, 1) ∷ (24, 1) ∷ (25, 1) ∷ (26, 1) ∷ (27, 1) ∷ (28, 1) ∷ (30, 2) ∷ [])
    ∷ ((23, 1) ∷ (24, 1) ∷ (25, 1) ∷ (26, 1) ∷ (27, 1) ∷ (28, 1) ∷ (29, 2) ∷ [])
    ∷ ((22, 2) ∷ (23, 1) ∷ (24, 1) ∷ (25, 1) ∷ (26, 1) ∷ (27, 1) ∷ (28, 1) ∷ [])
    ∷ ((64, 2) ∷ (65, 2) ∷ [])
    ∷ ((15, 2) ∷ (23, 1) ∷ (24, 1) ∷ (25, 1) ∷ (26, 1) ∷ (27, 1) ∷ (28, 1) ∷ [])
    ∷ ((48, 2) ∷ (49, 2) ∷ (50, 2) ∷ [])
    ∷ ((47, 2) ∷ [])
    ∷ ((46, 2) ∷ [])
    ∷ ((64, 1) ∷ (65, 1) ∷ [])
    ∷ ((68, 1) ∷ [])
    ∷ ((57, 2) ∷ [])
    ∷ ((23, 1) ∷ (24, 1) ∷ (25, 1) ∷ (26, 1) ∷ (27, 1) ∷ (28, 1) ∷ (31, 2) ∷ [])
    ∷ ((1, 2) ∷ [])
    ∷ ((6, 2) ∷ (7, 2) ∷ [])
    ∷ ((5, 2) ∷ [])
    ∷ ((27, 2) ∷ [])
    ∷ ((28, 2) ∷ [])
    ∷ ((25, 2) ∷ [])
    ∷ ((26, 2) ∷ [])
    ∷ ((33, 1) ∷ [])
    ∷ ((34, 1) ∷ [])
    ∷ ((35, 1) ∷ [])
    ∷ ((36, 1) ∷ [])
    ∷ ((37, 1) ∷ [])
    ∷ ((38, 1) ∷ [])
    ∷ ((39, 1) ∷ [])
    ∷ ((40, 1) ∷ [])
    ∷ ((24, 2) ∷ [])
    ∷ ((41, 1) ∷ [])
    ∷ ((42, 1) ∷ [])
    ∷ ((43, 1) ∷ [])
    ∷ ((44, 1) ∷ [])
    ∷ ((23, 2) ∷ [])
    ∷ ((51, 2) ∷ (52, 2) ∷ (56, 2) ∷ [])
    ∷ ((32, 2) ∷ [])
    ∷ ((45, 2) ∷ [])
    ∷ ((22, 3) ∷ [])
    ∷ ((64, 3) ∷ (65, 3) ∷ [])
    ∷ ((23, 1) ∷ (24, 1) ∷ (25, 1) ∷ (26, 1) ∷ (27, 1) ∷ (28, 1) ∷ (48, 3) ∷ (49, 3) ∷ (50, 3) ∷ [])
    ∷ ((23, 1) ∷ (24, 1) ∷ (25, 1) ∷ (26, 1) ∷ (27, 1) ∷ (28, 1) ∷ (47, 3) ∷ [])
    ∷ ((23, 1) ∷ (24, 1) ∷ (25, 1) ∷ (26, 1) ∷ (27, 1) ∷ (28, 1) ∷ (46, 3) ∷ [])
    ∷ ((57, 3) ∷ [])
    ∷ ((7, 3) ∷ [])
    ∷ ((23, 1) ∷ (24, 1) ∷ (25, 1) ∷ (26, 1) ∷ (27, 1) ∷ (27, 3) ∷ (28, 1) ∷ [])
    ∷ ((23, 1) ∷ (24, 1) ∷ (25, 1) ∷ (26, 1) ∷ (27, 1) ∷ (28, 1) ∷ (28, 3) ∷ [])
    ∷ ((23, 1) ∷ (24, 1) ∷ (25, 1) ∷ (25, 3) ∷ (26, 1) ∷ (27, 1) ∷ (28, 1) ∷ [])
    ∷ ((23, 1) ∷ (24, 1) ∷ (25, 1) ∷ (26, 1) ∷ (26, 3) ∷ (27, 1) ∷ (28, 1) ∷ [])
    ∷ ((23, 1) ∷ (24, 1) ∷ (24, 3) ∷ (25, 1) ∷ (26, 1) ∷ (27, 1) ∷ (28, 1) ∷ [])
    ∷ ((23, 1) ∷ (23, 3) ∷ (24, 1) ∷ (25, 1) ∷ (26, 1) ∷ (27, 1) ∷ (28, 1) ∷ [])
    ∷ ((56, 3) ∷ [])
    ∷ ((52, 3) ∷ [])
    ∷ ((23, 1) ∷ (24, 1) ∷ (25, 1) ∷ (26, 1) ∷ (27, 1) ∷ (28, 1) ∷ (59, 1) ∷ [])
    ∷ ((32, 3) ∷ (60, 1) ∷ [])
    ∷ ((23, 1) ∷ (24, 1) ∷ (25, 1) ∷ (26, 1) ∷ (27, 1) ∷ (28, 1) ∷ (45, 3) ∷ [])
    ∷ ((64, 4) ∷ (65, 4) ∷ [])
    ∷ ((48, 4) ∷ (49, 4) ∷ (50, 4) ∷ [])
    ∷ ((47, 4) ∷ [])
    ∷ ((46, 4) ∷ [])
    ∷ ((57, 4) ∷ [])
    ∷ ((54, 1) ∷ [])
    ∷ ((55, 1) ∷ (56, 4) ∷ [])
    ∷ ((51, 1) ∷ (52, 1) ∷ [])
    ∷ ((23, 1) ∷ (24, 1) ∷ (25, 1) ∷ (26, 1) ∷ (27, 1) ∷ (28, 1) ∷ (52, 4) ∷ [])
    ∷ ((32, 4) ∷ [])
    ∷ ((60, 2) ∷ [])
    ∷ ((64, 5) ∷ [])
    ∷ ((66, 1) ∷ [])
    ∷ ((65, 5) ∷ (67, 1) ∷ [])
    ∷ ((3, 1) ∷ (4, 1) ∷ [])
    ∷ ((48, 5) ∷ (49, 5) ∷ (50, 5) ∷ [])
    ∷ ((47, 5) ∷ [])
    ∷ ((23, 1) ∷ (24, 1) ∷ (25, 1) ∷ (26, 1) ∷ (27, 1) ∷ (28, 1) ∷ (46, 5) ∷ [])
    ∷ ((55, 1) ∷ (57, 5) ∷ [])
    ∷ ((56, 5) ∷ [])
    ∷ ((55, 2) ∷ [])
    ∷ ((51, 2) ∷ (52, 2) ∷ [])
    ∷ ((23, 1) ∷ (24, 1) ∷ (25, 1) ∷ (26, 1) ∷ (27, 1) ∷ (28, 1) ∷ (60, 3) ∷ [])
    ∷ ((65, 6) ∷ [])
    ∷ ((67, 2) ∷ [])
    ∷ ((4, 2) ∷ [])
    ∷ ((3, 2) ∷ (5, 1) ∷ (6, 1) ∷ (7, 1) ∷ [])
    ∷ ((49, 6) ∷ (50, 6) ∷ [])
    ∷ ((46, 6) ∷ [])
    ∷ ((57, 6) ∷ [])
    ∷ ((56, 6) ∷ [])
    ∷ ((55, 3) ∷ [])
    ∷ ((67, 3) ∷ [])
    ∷ ((3, 3) ∷ [])
    ∷ ((49, 7) ∷ [])
    ∷ ((50, 7) ∷ [])
    ∷ ((23, 1) ∷ (24, 1) ∷ (25, 1) ∷ (26, 1) ∷ (27, 1) ∷ (28, 1) ∷ (46, 7) ∷ [])
    ∷ ((46, 8) ∷ [])
    ∷ ((46, 9) ∷ [])
    ∷ []

-- By state: the nonterminals that may begin there.
unfoldable pub beginning : List (List ℕ)
beginning =
    (45 ∷ 46 ∷ 48 ∷ 49 ∷ 50 ∷ 52 ∷ 53 ∷ 54 ∷ 55 ∷ 56 ∷ 58 ∷ 60 ∷ 61 ∷ 63 ∷ 64 ∷ [])
    ∷ []
    ∷ (50 ∷ 52 ∷ 64 ∷ [])
    ∷ (50 ∷ 52 ∷ 64 ∷ [])
    ∷ (50 ∷ 52 ∷ 60 ∷ 61 ∷ 63 ∷ 64 ∷ [])
    ∷ (50 ∷ 52 ∷ 64 ∷ [])
    ∷ []
    ∷ []
    ∷ []
    ∷ (60 ∷ 61 ∷ 63 ∷ [])
    ∷ (50 ∷ 52 ∷ 64 ∷ [])
    ∷ []
    ∷ []
    ∷ []
    ∷ []
    ∷ []
    ∷ (49 ∷ 50 ∷ 52 ∷ 53 ∷ 54 ∷ 55 ∷ 56 ∷ 58 ∷ 60 ∷ 61 ∷ 63 ∷ 64 ∷ [])
    ∷ []
    ∷ (51 ∷ [])
    ∷ []
    ∷ []
    ∷ []
    ∷ []
    ∷ []
    ∷ []
    ∷ (64 ∷ [])
    ∷ []
    ∷ []
    ∷ []
    ∷ (50 ∷ 52 ∷ 64 ∷ [])
    ∷ []
    ∷ (51 ∷ [])
    ∷ (51 ∷ [])
    ∷ (51 ∷ [])
    ∷ []
    ∷ (51 ∷ [])
    ∷ (50 ∷ 52 ∷ 64 ∷ [])
    ∷ (50 ∷ 52 ∷ 64 ∷ [])
    ∷ (50 ∷ 52 ∷ 64 ∷ [])
    ∷ (60 ∷ 61 ∷ 63 ∷ [])
    ∷ []
    ∷ (64 ∷ [])
    ∷ (51 ∷ [])
    ∷ []
    ∷ (49 ∷ 50 ∷ 52 ∷ 53 ∷ 54 ∷ 55 ∷ 56 ∷ 58 ∷ 60 ∷ 61 ∷ 63 ∷ 64 ∷ [])
    ∷ []
    ∷ (50 ∷ 52 ∷ 64 ∷ [])
    ∷ (50 ∷ 52 ∷ 64 ∷ [])
    ∷ (50 ∷ 52 ∷ 64 ∷ [])
    ∷ (50 ∷ 52 ∷ 64 ∷ [])
    ∷ []
    ∷ []
    ∷ []
    ∷ []
    ∷ []
    ∷ []
    ∷ []
    ∷ []
    ∷ (50 ∷ 52 ∷ 64 ∷ [])
    ∷ []
    ∷ []
    ∷ []
    ∷ []
    ∷ (50 ∷ 52 ∷ 64 ∷ [])
    ∷ []
    ∷ (50 ∷ 52 ∷ 59 ∷ 64 ∷ [])
    ∷ (50 ∷ 52 ∷ 64 ∷ [])
    ∷ []
    ∷ []
    ∷ (51 ∷ [])
    ∷ (51 ∷ [])
    ∷ (51 ∷ [])
    ∷ []
    ∷ []
    ∷ (51 ∷ [])
    ∷ (51 ∷ [])
    ∷ (51 ∷ [])
    ∷ (51 ∷ [])
    ∷ (51 ∷ [])
    ∷ (51 ∷ [])
    ∷ (56 ∷ 57 ∷ 60 ∷ 61 ∷ 63 ∷ [])
    ∷ (50 ∷ 52 ∷ 64 ∷ [])
    ∷ (51 ∷ [])
    ∷ []
    ∷ (51 ∷ [])
    ∷ (60 ∷ 61 ∷ 62 ∷ 63 ∷ [])
    ∷ (47 ∷ [])
    ∷ (47 ∷ [])
    ∷ (50 ∷ 52 ∷ 64 ∷ [])
    ∷ (56 ∷ 57 ∷ 60 ∷ 61 ∷ 63 ∷ [])
    ∷ []
    ∷ []
    ∷ (64 ∷ [])
    ∷ (51 ∷ [])
    ∷ []
    ∷ (50 ∷ 52 ∷ 64 ∷ [])
    ∷ []
    ∷ []
    ∷ []
    ∷ (48 ∷ 49 ∷ 50 ∷ 52 ∷ 53 ∷ 54 ∷ 55 ∷ 56 ∷ 58 ∷ 60 ∷ 61 ∷ 63 ∷ 64 ∷ [])
    ∷ []
    ∷ []
    ∷ (51 ∷ [])
    ∷ []
    ∷ (47 ∷ [])
    ∷ (56 ∷ 60 ∷ 61 ∷ 63 ∷ [])
    ∷ []
    ∷ (51 ∷ [])
    ∷ []
    ∷ (60 ∷ 61 ∷ 63 ∷ [])
    ∷ []
    ∷ (49 ∷ 50 ∷ 52 ∷ 53 ∷ 54 ∷ 55 ∷ 56 ∷ 58 ∷ 60 ∷ 61 ∷ 63 ∷ 64 ∷ [])
    ∷ (47 ∷ 55 ∷ [])
    ∷ (50 ∷ 52 ∷ 64 ∷ [])
    ∷ []
    ∷ []
    ∷ []
    ∷ []
    ∷ []
    ∷ []
    ∷ []
    ∷ (51 ∷ [])
    ∷ (47 ∷ [])
    ∷ []
    ∷ []
