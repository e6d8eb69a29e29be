-- ===== src/Keys/Evdev.antt =====
-- crates/platform/src/keys.rs: `HID_TO_EVDEV`, USB HID usages with their evdev codes.
use kvmshare.Prelude.{List, [], ℕ, ◌∷◌}

abbrev pub hid_to_evdev : List (ℕ × ℕ)
hid_to_evdev =
    (4, 30)
    ∷ (5, 48)
    ∷ (6, 46)
    ∷ (7, 32)
    ∷ (8, 18)
    ∷ (9, 33)
    ∷ (10, 34)
    ∷ (11, 35)
    ∷ (12, 23)
    ∷ (13, 36)
    ∷ (14, 37)
    ∷ (15, 38)
    ∷ (16, 50)
    ∷ (17, 49)
    ∷ (18, 24)
    ∷ (19, 25)
    ∷ (20, 16)
    ∷ (21, 19)
    ∷ (22, 31)
    ∷ (23, 20)
    ∷ (24, 22)
    ∷ (25, 47)
    ∷ (26, 17)
    ∷ (27, 45)
    ∷ (28, 21)
    ∷ (29, 44)
    ∷ (30, 2)
    ∷ (31, 3)
    ∷ (32, 4)
    ∷ (33, 5)
    ∷ (34, 6)
    ∷ (35, 7)
    ∷ (36, 8)
    ∷ (37, 9)
    ∷ (38, 10)
    ∷ (39, 11)
    ∷ (40, 28)
    ∷ (41, 1)
    ∷ (42, 14)
    ∷ (43, 15)
    ∷ (44, 57)
    ∷ (45, 12)
    ∷ (46, 13)
    ∷ (47, 26)
    ∷ (48, 27)
    ∷ (49, 43)
    ∷ (50, 86)
    ∷ (51, 39)
    ∷ (52, 40)
    ∷ (53, 41)
    ∷ (54, 51)
    ∷ (55, 52)
    ∷ (56, 53)
    ∷ (57, 58)
    ∷ (58, 59)
    ∷ (59, 60)
    ∷ (60, 61)
    ∷ (61, 62)
    ∷ (62, 63)
    ∷ (63, 64)
    ∷ (64, 65)
    ∷ (65, 66)
    ∷ (66, 67)
    ∷ (67, 68)
    ∷ (68, 87)
    ∷ (69, 88)
    ∷ (70, 99)
    ∷ (71, 70)
    ∷ (72, 119)
    ∷ (73, 110)
    ∷ (74, 102)
    ∷ (75, 104)
    ∷ (76, 111)
    ∷ (77, 107)
    ∷ (78, 109)
    ∷ (79, 106)
    ∷ (80, 105)
    ∷ (81, 108)
    ∷ (82, 103)
    ∷ (83, 69)
    ∷ (84, 98)
    ∷ (85, 55)
    ∷ (86, 74)
    ∷ (87, 78)
    ∷ (88, 96)
    ∷ (89, 79)
    ∷ (90, 80)
    ∷ (91, 81)
    ∷ (92, 75)
    ∷ (93, 76)
    ∷ (94, 77)
    ∷ (95, 71)
    ∷ (96, 72)
    ∷ (97, 73)
    ∷ (98, 82)
    ∷ (99, 83)
    ∷ (103, 117)
    ∷ (133, 85)
    ∷ (135, 89)
    ∷ (136, 93)
    ∷ (137, 124)
    ∷ (138, 94)
    ∷ (139, 95)
    ∷ (176, 207)
    ∷ (177, 201)
    ∷ (179, 208)
    ∷ (180, 168)
    ∷ (181, 163)
    ∷ (182, 165)
    ∷ (183, 166)
    ∷ (184, 161)
    ∷ (185, 398)
    ∷ (205, 164)
    ∷ (404, 150)
    ∷ (545, 217)
    ∷ (547, 172)
    ∷ (548, 158)
    ∷ (549, 159)
    ∷ (550, 156)
    ∷ (551, 173)
    ∷ (552, 128)
    ∷ (224, 29)
    ∷ (225, 42)
    ∷ (226, 56)
    ∷ (227, 125)
    ∷ (228, 97)
    ∷ (229, 54)
    ∷ (230, 100)
    ∷ (231, 126)
    ∷ (232, 113)
    ∷ (233, 115)
    ∷ (234, 114)
    ∷ []
