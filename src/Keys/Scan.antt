-- ===== src/Keys/Scan.antt =====
-- crates/platform/src/keys.rs: `HID_TO_SCAN`, USB HID usages with their set-1 scan codes and the E0 flag.
use kvmshare.Prelude.{Bool, List, [], false, true, ℕ, ◌∷◌}

abbrev pub hid_to_scan : List (ℕ × ℕ × Bool)
hid_to_scan =
    (4, 30, false)
    ∷ (5, 48, false)
    ∷ (6, 46, false)
    ∷ (7, 32, false)
    ∷ (8, 18, false)
    ∷ (9, 33, false)
    ∷ (10, 34, false)
    ∷ (11, 35, false)
    ∷ (12, 23, false)
    ∷ (13, 36, false)
    ∷ (14, 37, false)
    ∷ (15, 38, false)
    ∷ (16, 50, false)
    ∷ (17, 49, false)
    ∷ (18, 24, false)
    ∷ (19, 25, false)
    ∷ (20, 16, false)
    ∷ (21, 19, false)
    ∷ (22, 31, false)
    ∷ (23, 20, false)
    ∷ (24, 22, false)
    ∷ (25, 47, false)
    ∷ (26, 17, false)
    ∷ (27, 45, false)
    ∷ (28, 21, false)
    ∷ (29, 44, false)
    ∷ (30, 2, false)
    ∷ (31, 3, false)
    ∷ (32, 4, false)
    ∷ (33, 5, false)
    ∷ (34, 6, false)
    ∷ (35, 7, false)
    ∷ (36, 8, false)
    ∷ (37, 9, false)
    ∷ (38, 10, false)
    ∷ (39, 11, false)
    ∷ (40, 28, false)
    ∷ (41, 1, false)
    ∷ (42, 14, false)
    ∷ (43, 15, false)
    ∷ (44, 57, false)
    ∷ (45, 12, false)
    ∷ (46, 13, false)
    ∷ (47, 26, false)
    ∷ (48, 27, false)
    ∷ (49, 43, false)
    ∷ (50, 86, false)
    ∷ (51, 39, false)
    ∷ (52, 40, false)
    ∷ (53, 41, false)
    ∷ (54, 51, false)
    ∷ (55, 52, false)
    ∷ (56, 53, false)
    ∷ (57, 58, false)
    ∷ (58, 59, false)
    ∷ (59, 60, false)
    ∷ (60, 61, false)
    ∷ (61, 62, false)
    ∷ (62, 63, false)
    ∷ (63, 64, false)
    ∷ (64, 65, false)
    ∷ (65, 66, false)
    ∷ (66, 67, false)
    ∷ (67, 68, false)
    ∷ (68, 87, false)
    ∷ (69, 88, false)
    ∷ (70, 55, true)
    ∷ (71, 70, false)
    ∷ (73, 82, true)
    ∷ (74, 71, true)
    ∷ (75, 73, true)
    ∷ (76, 83, true)
    ∷ (77, 79, true)
    ∷ (78, 81, true)
    ∷ (79, 77, true)
    ∷ (80, 75, true)
    ∷ (81, 80, true)
    ∷ (82, 72, true)
    ∷ (83, 69, false)
    ∷ (84, 53, true)
    ∷ (85, 55, false)
    ∷ (86, 74, false)
    ∷ (87, 78, false)
    ∷ (88, 28, true)
    ∷ (89, 79, false)
    ∷ (90, 80, false)
    ∷ (91, 81, false)
    ∷ (92, 75, false)
    ∷ (93, 76, false)
    ∷ (94, 77, false)
    ∷ (95, 71, false)
    ∷ (96, 72, false)
    ∷ (97, 73, false)
    ∷ (98, 82, false)
    ∷ (99, 83, false)
    ∷ (103, 89, false)
    ∷ (181, 25, true)
    ∷ (182, 16, true)
    ∷ (183, 36, true)
    ∷ (205, 34, true)
    ∷ (135, 115, false)
    ∷ (136, 112, false)
    ∷ (137, 125, false)
    ∷ (138, 121, false)
    ∷ (139, 123, false)
    ∷ (224, 29, false)
    ∷ (225, 42, false)
    ∷ (226, 56, false)
    ∷ (227, 91, true)
    ∷ (228, 29, true)
    ∷ (229, 54, false)
    ∷ (230, 56, true)
    ∷ (231, 92, true)
    ∷ (232, 32, true)
    ∷ (233, 48, true)
    ∷ (234, 46, true)
    ∷ (404, 50, true)
    ∷ (545, 101, true)
    ∷ (547, 50, true)
    ∷ (548, 106, true)
    ∷ (549, 105, true)
    ∷ (550, 103, true)
    ∷ (551, 102, true)
    ∷ (552, 104, true)
    ∷ []
